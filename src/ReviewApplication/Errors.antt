-- ===== src/ReviewApplication/Errors.antt =====
-- review_application/errors.py, with what the workflow, the reports, Python and SQLite raise under it.
use ai_data_quality_platform.Base.{Result, ok, err}
use ai_data_quality_platform.HumanReview.Errors.{HumanReviewError}

pub data ReviewApplicationError : Type 0 where
  persisted_case_integrity review_event_integrity review_conflict : ReviewApplicationError
  duplicate_case_registration authorization_config : ReviewApplicationError
  review_persistence review_queue_not_found : ReviewApplicationError
  workflow_context_missing workflow_context_conflict : ReviewApplicationError
  suggestion_integrity suggestion_conflict : ReviewApplicationError
  organization_not_active storage_constraint value_error report_error : ReviewApplicationError
  human_review : HumanReviewError → ReviewApplicationError

-- An exception of the workflow passes through unchanged.
abbrev pub from_workflow {ℓ} :
    {A : Type ℓ} → Result HumanReviewError A → Result ReviewApplicationError A
from_workflow (ok a) = ok a
from_workflow (err raised) = err (human_review raised)
