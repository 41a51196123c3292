-- ===== src/SemanticReview/Request/Identity.antt =====
-- What a built request is about.
use ai_data_quality_platform.Base.{
  String, ok, ◌≡◌, refl, subst, or_raise, returned-bind, ok-injective,
}
use ai_data_quality_platform.Base.Assoc.{Dict, lookup}
use ai_data_quality_platform.EntityResolution.Models.{EntityRecord}
use ai_data_quality_platform.HumanReview.Models.{ReviewCase}
use ai_data_quality_platform.SemanticReview.Models.{
  SemanticReviewRequest, SemanticReviewConfig, key_or_value_error,
}
use ai_data_quality_platform.SemanticReview.Request.{
  PromptTools, check_case, check_prompt, draft_request, with_ids, build_semantic_review_request,
}

-- A request about a case and the pair of its records.
pub record IsAbout (c : ReviewCase) (request : SemanticReviewRequest) : Type 0 where
  pub same_case : request.review_case_id ≡ c.review_case_id
  pub same_left : request.record_a_id ≡ c.pair.record_a_id
  pub same_right : request.record_b_id ≡ c.pair.record_b_id

module _ (tools : PromptTools) where
  draft-IsAbout :
      (c : ReviewCase) (a b : EntityRecord) (config : SemanticReviewConfig) (stamp : String)
      → IsAbout c (with_ids tools (draft_request tools c a b config stamp))
  unfolding with_ids draft_request
  draft-IsAbout c a b config stamp = record {
    same_case = refl;
    same_left = refl;
    same_right = refl;
  }

  pub build_semantic_review_request-IsAbout :
      (c : ReviewCase) (records : Dict EntityRecord) (config : SemanticReviewConfig)
      (stamp : String) (request : SemanticReviewRequest)
      → build_semantic_review_request tools c records config stamp ≡ ok request
      → IsAbout c request
  unfolding build_semantic_review_request
  build_semantic_review_request-IsAbout c records config stamp request built =
      let (_, found, checked) = returned-bind (check_case tools c) _ built in
      let (a, with_a, has_a) =
        returned-bind (or_raise (lookup c.pair.record_a_id records) key_or_value_error) _ found in
      let (b, with_b, has_b) =
        returned-bind (or_raise (lookup c.pair.record_b_id records) key_or_value_error) _ with_a in
      let (_, same, passed) =
        returned-bind
          (check_prompt tools config (with_ids tools (draft_request tools c a b config stamp))) _
          with_b in
      subst (IsAbout c) (ok-injective same) (draft-IsAbout c a b config stamp)
