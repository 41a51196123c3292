-- ===== src/HumanReview/Workflow/Refusals.antt =====
-- workflow.py records a NO_MATCH without looking at the MATCH decisions; what follows from that for the
-- MATCH decisions after it.
use ai_data_quality_platform.Base.{String, Option, text_eq}
use ai_data_quality_platform.EntityResolution.Models.{pair_eq}
use ai_data_quality_platform.HumanReview.Models.{
  HumanReviewDecision, ReviewCase, ReviewWorkflowState,
}
use ai_data_quality_platform.HumanReview.Linked.{Linked}
use ai_data_quality_platform.HumanReview.Workflow.{resolved_case, record_decision}

module _ (s : ReviewWorkflowState) (case_id : String) (c : ReviewCase)
    (reviewer : Option String) where
  abbrev after_no_match : ReviewWorkflowState
  after_no_match = record_decision s case_id c HumanReviewDecision.no_match reviewer

  abbrev updated : ReviewCase
  updated = resolved_case s c HumanReviewDecision.no_match reviewer
