-- ===== src/Samples/Clusters.antt =====
-- Decisions and clusters at concrete inputs.
use ai_data_quality_platform.Base.{
  err, ◌⊎◌, ℕ, String, true, false, none, some, List, [], ◌∷◌, ◌≡◌, ◌↔◌, refl, inl, inr, contains,
  text_eq, contains-cons_cases, subst, ok,
}
use ai_data_quality_platform.Base.AllOf.{AllOf}
use ai_data_quality_platform.Base.Assoc.{keys}
use ai_data_quality_platform.Base.Float.{float_ge}
use ai_data_quality_platform.EntityResolution.Models.{
  MatchDecisionType, EvidenceType, RecordPair, pair_eq, PairEvidence, PairComparison,
  ResolutionResult, EntityCluster,
}
use ai_data_quality_platform.EntityResolution.Conflicts.{zero_point_zero, one_point_zero}
use ai_data_quality_platform.EntityResolution.Decisions.{
  decide_pair_match, IsSafeMatch, decide_pair_match-auto, decide_pair_match-no_match,
}
use ai_data_quality_platform.HumanReview.Models.{
  ReviewStatus, HumanReviewDecision, ReviewCase, ReviewWorkflowState, resolved_match_pairs,
  resolved_no_match_pairs,
}
use ai_data_quality_platform.HumanReview.Integration.{build_review_aware_clusters}
use ai_data_quality_platform.HumanReview.Proposal.{EndsListed}
use ai_data_quality_platform.HumanReview.Integration.Safety.{
  KeepsApart, build_review_aware_clusters-KeepsApart,
}
use ai_data_quality_platform.HumanReview.MatchComponents.{
  build_human_match_components, build_human_match_components-raises,
}
use ai_data_quality_platform.HumanReview.Merging.{Conflict}
use ai_data_quality_platform.HumanReview.Errors.{contradiction, type_error}
use ai_data_quality_platform.EntityResolution.Clustering.{auto_decisions, build_entity_clusters}
use ai_data_quality_platform.EntityResolution.Clustering.Linkage.{
  IsLinkedCluster, matched_pairs, build_entity_clusters-linked,
}
use ai_data_quality_platform.Samples.Data.{plain_tools, config, records, case_of}

abbrev same_email : PairEvidence
same_email = record {
  evidence_type = EvidenceType.email_exact;
  field_name = "email";
  value = one_point_zero;
  weight = one_point_zero;
  contribution = one_point_zero;
  strength = "strong";
  description = "Emails match exactly.";
}

abbrev comparison_of : String → String → PairComparison
comparison_of left right = record {
  pair = record { record_a_id = left; record_b_id = right };
  candidate_reasons = [];
  evidence = same_email ∷ [];
  conflicts = [];
  score = one_point_zero;
}

decide_pair_match-auto_example :
    ((decide_pair_match config (comparison_of "a" "c")).decision ≡ MatchDecisionType.auto_match)
    ↔ IsSafeMatch config (comparison_of "a" "c")
decide_pair_match-auto_example = decide_pair_match-auto config (comparison_of "a" "c")

decide_pair_match-no_match_example :
    ((decide_pair_match config (comparison_of "a" "c")).decision ≡ MatchDecisionType.no_match)
    ↔ (float_ge one_point_zero zero_point_zero ≡ false)
unfolding float_ge
decide_pair_match-no_match_example = decide_pair_match-no_match config (comparison_of "a" "c") refl

-- The decision on such a comparison.
auto_ac : (decide_pair_match config (comparison_of "a" "c")).decision ≡ MatchDecisionType.auto_match
unfolding decide_pair_match
auto_ac = refl

abbrev resolved_as : ReviewCase → ReviewStatus → HumanReviewDecision → ReviewCase
resolved_as c status decision = record c {
  status = status;
  resolution = some (record {
    review_case_id = c.review_case_id;
    human_decision = decision;
    reviewer_id = none;
    resolution_sequence = 1;
    machine_decision = c.machine_decision;
    machine_reason = c.machine_reason;
    downstream_action = "";
  });
}

-- "a" and "b" are one customer, and "a" and "c" are not.
abbrev outcome : ReviewWorkflowState
outcome = record {
  cases =
      resolved_as (case_of "RC-1" "a" "b") ReviewStatus.match HumanReviewDecision.match
      ∷ resolved_as (case_of "RC-3" "a" "c") ReviewStatus.no_match HumanReviewDecision.no_match
      ∷ [];
  audit_trail = [];
  next_resolution_sequence = 3;
}

abbrev resolution : ResolutionResult
resolution = record {
  decisions =
      record {
        pair = record { record_a_id = "b"; record_b_id = "c" };
        comparison = comparison_of "b" "c";
        decision = MatchDecisionType.auto_match;
        reason = "";
      }
      ∷ [];
  review_queue = [];
}

outcome-listed :
    (e : RecordPair)
    → contains e (resolved_match_pairs outcome) ≡ true
    → EndsListed (keys records) e
unfolding resolved_match_pairs keys
outcome-listed e h =
    elim (contains-cons_cases e (record { record_a_id = "a"; record_b_id = "b" }) [] h) [
      | inl same ↦ subst (EndsListed (keys records)) same (refl, refl)
      | inr none_left ↦ cc
    ]

build_review_aware_clusters-KeepsApart_example :
    (clusters : List EntityCluster) × (build_review_aware_clusters plain_tools config records
        resolution
        (some outcome)
      ≡ ok clusters)
    × AllOf (KeepsApart (resolved_no_match_pairs outcome)) clusters
unfolding keys
build_review_aware_clusters-KeepsApart_example =
    build_review_aware_clusters-KeepsApart plain_tools config records resolution outcome
      ((λ auto. (refl, refl)), tt) outcome-listed

build_human_match_components-raises_example :
    ((build_human_match_components outcome records ≡ err contradiction)
      × Conflict (resolved_no_match_pairs outcome) (resolved_match_pairs outcome))
    ⊎ (build_human_match_components outcome records ≡ err type_error)
unfolding resolved_match_pairs
build_human_match_components-raises_example =
    build_human_match_components-raises outcome records outcome-listed refl

build_entity_clusters-linked_example :
    (clusters : List EntityCluster) × (held : ℕ) × (build_entity_clusters plain_tools config records
        resolution.decisions
      ≡ ok (clusters, held))
    × AllOf (IsLinkedCluster (matched_pairs resolution.decisions)) clusters
unfolding keys auto_decisions
build_entity_clusters-linked_example =
    build_entity_clusters-linked plain_tools config records resolution.decisions ((refl, refl), tt)
