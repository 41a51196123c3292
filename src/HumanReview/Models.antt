-- ===== src/HumanReview/Models.antt =====
-- human_review/models.py: the review case, its states, and the queries on a workflow state.
use ai_data_quality_platform.Base.{
  ℕ, String, Bool, true, false, Option, none, some, List, [], ◌∷◌, ◌&&◌, ◌||◌, ◌==◌, if◌then◌else◌,
  filter, add, set_of, map, text_eq,
}
use ai_data_quality_platform.Base.Float.{Float}
use ai_data_quality_platform.EntityResolution.Models.{MatchDecisionType, RecordPair, pair_eq}

pub data ReviewStatus : Type 0 where
  pending match no_match deferred : ReviewStatus

pub data HumanReviewDecision : Type 0 where
  match no_match defer : HumanReviewDecision

unfoldable pub human_decision_value : HumanReviewDecision → String
human_decision_value HumanReviewDecision.match = "MATCH"
human_decision_value HumanReviewDecision.no_match = "NO_MATCH"
human_decision_value HumanReviewDecision.defer = "DEFER"

abbrev pub status_eq : ReviewStatus → ReviewStatus → Bool
status_eq ReviewStatus.pending ReviewStatus.pending = true
status_eq ReviewStatus.match ReviewStatus.match = true
status_eq ReviewStatus.no_match ReviewStatus.no_match = true
status_eq ReviewStatus.deferred ReviewStatus.deferred = true
status_eq _ _ = false

pub record ReviewEvidence : Type 0 where
  pub evidence_type : String
  pub field_name : String
  pub strength : String
  pub description : String
  pub contribution : Float

pub record ReviewConflictEvidence : Type 0 where
  pub conflict_type : String
  pub field_name : String
  pub severity : String
  pub description : String
  pub penalty : Float

pub record ReviewBlockingReason : Type 0 where
  pub reason_type : String
  pub blocking_key : String
  pub description : String

pub record ReviewResolution : Type 0 where
  pub review_case_id : String
  pub human_decision : HumanReviewDecision
  pub reviewer_id : Option String
  pub resolution_sequence : ℕ
  pub machine_decision : MatchDecisionType
  pub machine_reason : String
  pub downstream_action : String

pub record ReviewAuditEntry : Type 0 where
  pub review_case_id : String
  pub record_a_id : String
  pub record_b_id : String
  pub machine_decision : String
  pub machine_reason : String
  pub human_decision : String
  pub reviewer_id : Option String
  pub resolution_sequence : ℕ
  pub downstream_action : String

pub record ReviewCase : Type 0 where
  pub review_case_id : String
  pub pair : RecordPair
  pub record_ids : String × String
  pub machine_decision : MatchDecisionType
  pub machine_score : Float
  pub auto_match_threshold : Float
  pub review_threshold : Float
  pub machine_reason : String
  pub blocking_reasons : List ReviewBlockingReason
  pub supporting_evidence : List ReviewEvidence
  pub conflicting_evidence : List ReviewConflictEvidence
  pub missing_evidence_notes : List String
  pub machine_readable_reasons : List String
  pub human_summary : String
  pub status : ReviewStatus
  pub resolution : Option ReviewResolution

pub record ReviewWorkflowState : Type 0 where
  pub cases : List ReviewCase
  pub audit_trail : List ReviewAuditEntry
  pub next_resolution_sequence : ℕ

abbrev pub has_resolution : ReviewCase → Bool
has_resolution c = elim (c.resolution) [ none ↦ false | some _ ↦ true ]

-- The first case with the id.
unfoldable pub find_case : String → List ReviewCase → Option ReviewCase
find_case case_id [] = none
find_case case_id (c ∷ cases) =
    if c.review_case_id == case_id then some c else find_case case_id cases

unfoldable pub case_by_id : ReviewWorkflowState → String → Option ReviewCase
unfolding find_case
case_by_id s case_id = find_case case_id s.cases

unfoldable pub pending_cases : ReviewWorkflowState → List ReviewCase
pending_cases s = filter (λ c. status_eq c.status ReviewStatus.pending) s.cases

unfoldable pub deferred_cases : ReviewWorkflowState → List ReviewCase
deferred_cases s = filter (λ c. status_eq c.status ReviewStatus.deferred) s.cases

-- The pairs of the resolved cases with one status; a frozenset keeps one copy of each.
unfoldable pub pairs_with_status : ReviewStatus → List ReviewCase → List RecordPair
pairs_with_status status cases =
    set_of (map (λ c. c.pair) (filter (λ c. status_eq c.status status && has_resolution c) cases))

-- `HumanReviewOutcome.resolved_match_pairs` and `resolved_no_match_pairs`
unfoldable pub resolved_match_pairs : ReviewWorkflowState → List RecordPair
unfolding pairs_with_status
resolved_match_pairs s = pairs_with_status ReviewStatus.match s.cases

unfoldable pub resolved_no_match_pairs : ReviewWorkflowState → List RecordPair
unfolding pairs_with_status
resolved_no_match_pairs s = pairs_with_status ReviewStatus.no_match s.cases

is_unresolved : ReviewCase → Bool
is_unresolved c =
    status_eq c.status ReviewStatus.pending || status_eq c.status ReviewStatus.deferred

add_unresolved : List String → List ReviewCase → List String
add_unresolved ids [] = ids
add_unresolved ids (c ∷ cases) =
    add_unresolved
      (if is_unresolved c then add c.pair.record_b_id (add c.pair.record_a_id ids) else ids) cases

-- `HumanReviewOutcome.unresolved_record_ids`
unfoldable pub unresolved_record_ids : ReviewWorkflowState → List String
unfolding add_unresolved is_unresolved
unresolved_record_ids s = add_unresolved [] s.cases
