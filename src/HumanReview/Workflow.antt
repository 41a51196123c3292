-- ===== src/HumanReview/Workflow.antt =====
-- human_review/workflow.py: the class `ReviewWorkflow`. A method returns the new state or the
-- exception; an exception is always raised before `self._state` is assigned.
pub mod Invariant
pub mod Transitions
pub mod Refusals
pub mod Consistency
use ai_data_quality_platform.Base.{
  ℕ, suc, ◌+◌, String, Bool, true, false, not, Option, none, some, List, [], ◌∷◌, ◌++◌, ◌&&◌, ◌||◌,
  ◌==◌, if◌then◌else◌, Result, ok, err, ◌>>=◌, contains, text_eq, map,
}
use ai_data_quality_platform.Base.Assoc.{Dict, lookup, keys}
use ai_data_quality_platform.EntityResolution.Models.{
  EntityRecord, EntityResolutionConfig, ResolutionResult, match_decision_value,
}
use ai_data_quality_platform.EntityResolution.Conflicts.{TextTools}
use ai_data_quality_platform.HumanReview.Models.{
  ReviewStatus, HumanReviewDecision, status_eq, human_decision_value, ReviewResolution,
  ReviewAuditEntry, ReviewCase, ReviewWorkflowState, find_case, case_by_id,
}
use ai_data_quality_platform.HumanReview.Errors.{
  HumanReviewError, case_not_found, invalid_transition, authorization_context,
}
use ai_data_quality_platform.HumanReview.Authorization.{assert_human_match_authorization_boundary}

-- `_downstream_action`
unfoldable pub downstream_action : HumanReviewDecision → String
downstream_action HumanReviewDecision.match = "eligible_for_human_confirmed_canonical_merge"
downstream_action HumanReviewDecision.no_match = "explicit_no_match_constraint_recorded"
downstream_action HumanReviewDecision.defer = "remain_excluded_from_unsafe_canonical_merge"

-- `_status_for_decision`
unfoldable pub status_for_decision : HumanReviewDecision → ReviewStatus
status_for_decision HumanReviewDecision.match = ReviewStatus.match
status_for_decision HumanReviewDecision.no_match = ReviewStatus.no_match
status_for_decision HumanReviewDecision.defer = ReviewStatus.deferred

-- The optional arguments of `resolve_case` that a MATCH needs.
pub record ReviewContext : Type 0 where
  pub resolution : Option ResolutionResult
  pub records_by_id : Option (Dict EntityRecord)
  pub entity_resolution_config : Option EntityResolutionConfig

unfoldable pub get_case : ReviewWorkflowState → String → Result HumanReviewError ReviewCase
unfolding case_by_id
get_case s case_id = elim (case_by_id s case_id) [ none ↦ err case_not_found | some c ↦ ok c ]

module _ (tools : TextTools) where
  -- With the whole context: both records must be there, and the boundary must hold.
  unfoldable pub authorize_in :
      ReviewWorkflowState
      → ReviewCase
      → ResolutionResult
      → Dict EntityRecord
      → EntityResolutionConfig
      → Result HumanReviewError (Unit {0})
  unfolding keys
  authorize_in s c resolution records config =
      if not (contains c.pair.record_a_id (keys records))
        || not (contains c.pair.record_b_id (keys records))
      then err authorization_context
      else assert_human_match_authorization_boundary tools c.pair s resolution records config none
          none

  -- The tests under `if missing:`; an empty dictionary of records counts as missing.
  unfoldable pub authorize_with :
      ReviewWorkflowState
      → ReviewCase
      → Option ResolutionResult
      → Option (Dict EntityRecord)
      → Option EntityResolutionConfig
      → Result HumanReviewError (Unit {0})
  unfolding authorize_in
  authorize_with s c (some resolution) (some (first ∷ records)) (some config) =
      authorize_in s c resolution (first ∷ records) config
  authorize_with s c _ _ _ = err authorization_context

  unfoldable pub authorize_match :
      ReviewWorkflowState → ReviewCase → ReviewContext → Result HumanReviewError (Unit {0})
  unfolding authorize_with
  authorize_match s c context =
      authorize_with s c context.resolution context.records_by_id context.entity_resolution_config

  -- Only a MATCH is authorized.
  unfoldable pub authorize_decision :
      ReviewWorkflowState
      → ReviewCase
      → HumanReviewDecision
      → ReviewContext
      → Result HumanReviewError (Unit {0})
  unfolding authorize_match
  authorize_decision s c HumanReviewDecision.match context = authorize_match s c context
  authorize_decision s c HumanReviewDecision.no_match context = ok tt
  authorize_decision s c HumanReviewDecision.defer context = ok tt

-- The `ReviewResolution` that is stamped on the case.
unfoldable pub resolution_of :
    ReviewWorkflowState → ReviewCase → HumanReviewDecision → Option String → ReviewResolution
unfolding downstream_action
resolution_of s c decision reviewer = record {
  review_case_id = c.review_case_id;
  human_decision = decision;
  reviewer_id = reviewer;
  resolution_sequence = s.next_resolution_sequence;
  machine_decision = c.machine_decision;
  machine_reason = c.machine_reason;
  downstream_action = downstream_action decision;
}

unfoldable pub resolved_case :
    ReviewWorkflowState → ReviewCase → HumanReviewDecision → Option String → ReviewCase
unfolding status_for_decision resolution_of
resolved_case s c decision reviewer = record c {
  status = status_for_decision decision;
  resolution = some (resolution_of s c decision reviewer);
}

unfoldable pub audit_entry_of :
    ReviewWorkflowState → ReviewCase → HumanReviewDecision → Option String → ReviewAuditEntry
unfolding resolution_of human_decision_value match_decision_value
audit_entry_of s c decision reviewer = record {
  review_case_id = c.review_case_id;
  record_a_id = c.pair.record_a_id;
  record_b_id = c.pair.record_b_id;
  machine_decision = match_decision_value c.machine_decision;
  machine_reason = c.machine_reason;
  human_decision = human_decision_value decision;
  reviewer_id = reviewer;
  resolution_sequence = (resolution_of s c decision reviewer).resolution_sequence;
  downstream_action = (resolution_of s c decision reviewer).downstream_action;
}

-- Every case with the id is replaced.
unfoldable pub replace_case : String → ReviewCase → List ReviewCase → List ReviewCase
replace_case case_id updated [] = []
replace_case case_id updated (c ∷ cases) =
    (if c.review_case_id == case_id then updated else c) ∷ replace_case case_id updated cases

-- The assignment to `self._state`.
unfoldable pub record_decision :
    ReviewWorkflowState
    → String
    → ReviewCase
    → HumanReviewDecision
    → Option String
    → ReviewWorkflowState
unfolding resolved_case audit_entry_of replace_case
record_decision s case_id c decision reviewer = record {
  cases = replace_case case_id (resolved_case s c decision reviewer) s.cases;
  audit_trail = s.audit_trail ++ audit_entry_of s c decision reviewer ∷ [];
  next_resolution_sequence = s.next_resolution_sequence + 1;
}

module _ (tools : TextTools) where
  unfoldable pub resolve_case :
      ReviewWorkflowState
      → String
      → HumanReviewDecision
      → Option String
      → ReviewContext
      → Result HumanReviewError ReviewWorkflowState
  unfolding get_case authorize_decision record_decision
  resolve_case s case_id decision reviewer context = get_case s case_id >>= λ c.
      if not (status_eq c.status ReviewStatus.pending)
      then err invalid_transition
      else (authorize_decision tools s c decision context >>= λ _.
          ok (record_decision s case_id c decision reviewer))
