-- ===== src/HumanReview/Errors.antt =====
-- human_review/errors.py, and what a dictionary raises under it.
use ai_data_quality_platform.Base.{Result, ok, err}
use ai_data_quality_platform.UnionFind.{Fault}

pub data HumanReviewError : Type 0 where
  case_not_found invalid_transition contradiction authorization : HumanReviewError
  authorization_context type_error : HumanReviewError
  fault : Fault → HumanReviewError

-- A KeyError passes through the caller.
abbrev pub lift {ℓ} : {A : Type ℓ} → Result Fault A → Result HumanReviewError A
lift (ok a) = ok a
lift (err f) = err (fault f)
