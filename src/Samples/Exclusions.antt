-- ===== src/Samples/Exclusions.antt =====
-- A queue of one pair whose review is open.
use ai_data_quality_platform.Base.{true, some, [], ◌∷◌, ◌≡◌, refl, ◌↔◌, contains, text_eq}
use ai_data_quality_platform.Base.AllOf.{AnyOf}
use ai_data_quality_platform.EntityResolution.Models.{MatchDecisionType, ResolutionResult}
use ai_data_quality_platform.EntityResolution.Conflicts.{one_point_zero}
use ai_data_quality_platform.HumanReview.Models.{ReviewWorkflowState}
use ai_data_quality_platform.HumanReview.Integration.{cases_of, review_excluded_record_ids}
use ai_data_quality_platform.HumanReview.Integration.Exclusion.{
  KeepsOut, contains-review_excluded_record_ids,
}
use ai_data_quality_platform.Samples.Data.{case_of}

abbrev queued : ResolutionResult
queued = record {
  decisions = [];
  review_queue =
      record {
        pair = record { record_a_id = "a"; record_b_id = "b" };
        score = one_point_zero;
        decision = MatchDecisionType.review;
        evidence = [];
        conflicts = [];
        candidate_reasons = [];
        reason = "";
      }
      ∷ [];
}

abbrev waiting : ReviewWorkflowState
waiting = record {
  cases = case_of "RC-1" "a" "b" ∷ [];
  audit_trail = [];
  next_resolution_sequence = 1;
}

left_out : contains "b" (review_excluded_record_ids queued (some waiting)) ≡ true
unfolding review_excluded_record_ids
left_out = refl

contains-review_excluded_record_ids_example :
    (contains "b" (review_excluded_record_ids queued (some waiting)) ≡ true)
    ↔ AnyOf (KeepsOut (cases_of (some waiting)) "b") queued.review_queue
contains-review_excluded_record_ids_example =
    contains-review_excluded_record_ids queued (some waiting) "b"
