-- ===== src/Samples/Suggestions.antt =====
-- The provider of Providers asked about one case, under a cap of two calls.
use ai_data_quality_platform.Base.{
  ℕ, ◌+◌, ◌≤◌, true, some, ok, err, ◌≡◌, refl, ◌⊎◌, inr, text_eq, text_lt, sorted_texts,
}
use ai_data_quality_platform.Base.Assoc.{lookup}
use ai_data_quality_platform.UnionFind.{
  find, find_halving, singletons, union, component_members, members_of,
}
use ai_data_quality_platform.EntityResolution.Severity.{cluster_conflict}
use ai_data_quality_platform.HumanReview.Models.{ReviewCase}
use ai_data_quality_platform.HumanReview.Constraints.{assert_human_match_allowed}
use ai_data_quality_platform.HumanReview.Authorization.{assert_human_match_authorization_boundary}
use ai_data_quality_platform.SemanticReview.Models.{
  SemanticReviewRequest, ErrorClass, SemanticReviewError, semantic, SemanticSuggestion,
}
use ai_data_quality_platform.SemanticReview.Request.{build_semantic_review_request}
use ai_data_quality_platform.SemanticReview.Policy.Eligible.{IsEligible}
use ai_data_quality_platform.SemanticReview.Budget.{require_model_rates}
use ai_data_quality_platform.SemanticReview.Attempts.{ServiceState}
use ai_data_quality_platform.SemanticReview.Service.{requires_enabled, routing_of, suggest_for_case}
use ai_data_quality_platform.SemanticReview.Attempts.Endings.{NeverReturns, FailsClosed}
use ai_data_quality_platform.SemanticReview.Request.Identity.{IsAbout}
use ai_data_quality_platform.SemanticReview.Service.Cases.{Suggests}
use ai_data_quality_platform.SemanticReview.Service.Spending.{
  Served, then_serve, done, suggest_for_case-count, Served-count,
}
use ai_data_quality_platform.SemanticReview.Service.Answers.{
  suggest_for_case-IsEligible, suggest_for_case-FailsClosed,
}
use ai_data_quality_platform.SemanticReview.Service.Progress.{suggest_for_case-Ends}
use ai_data_quality_platform.Samples.Data.{plain_tools, records, case_of}
use ai_data_quality_platform.Samples.Providers.{
  costs, prompts, rates, limits, silent, service, asked, start, eligible, request, failure,
}

routed : routing_of service asked ≡ ok eligible
unfolding routing_of assert_human_match_authorization_boundary assert_human_match_allowed members_of
    find singletons sorted_texts text_lt union component_members find_halving cluster_conflict
    build_semantic_review_request
routed = refl

built :
    build_semantic_review_request prompts
      (case_of "RC-1" "a" "b")
      records
      limits
      "2026-01-01T00:00:01Z"
    ≡ ok request
unfolding build_semantic_review_request
built = refl

answered : (suggest_for_case service asked start).answer ≡ ok (eligible, some failure)
unfolding suggest_for_case assert_human_match_authorization_boundary assert_human_match_allowed
    members_of find singletons sorted_texts text_lt union component_members find_halving
    cluster_conflict build_semantic_review_request
answered = refl

suggests : Suggests (suggest_for_case service asked start).answer
unfolding Suggests
suggests = (eligible, failure, answered)

never : NeverReturns silent
never calls request suggestion h = cc

priced : require_model_rates limits ≡ ok rates
unfolding require_model_rates lookup
priced = refl

suggest_for_case-FailsClosed_example :
    (c : ReviewCase) × (asked.case ≡ some c)
    × (r : SemanticReviewRequest) × IsAbout c r
    × FailsClosed prompts costs limits silent r
        (suggest_for_case service asked start).after.provider_state
        failure
suggest_for_case-FailsClosed_example =
    suggest_for_case-FailsClosed service asked start eligible failure never answered

suggest_for_case-IsEligible_example :
    (c : ReviewCase) × (asked.case ≡ some c)
    × IsEligible plain_tools prompts limits asked.context records
        (requires_enabled service)
        asked.routing_stamp
        c
suggest_for_case-IsEligible_example = suggest_for_case-IsEligible service asked start (inr suggests)

abbrev after_one : ServiceState ℕ
after_one = (suggest_for_case service asked start).after

abbrev after_two : ServiceState ℕ
after_two = (suggest_for_case service asked after_one).after

two-Served : Served service start after_two
two-Served =
    then_serve start after_one after_two asked refl
      (then_serve after_one after_two after_two asked refl (done after_two))

suggest_for_case-count_example :
    (suggest_for_case service asked start).after.provider_state ≤ 0 + (1 + 1)
suggest_for_case-count_example =
    suggest_for_case-count service (λ calls. calls) asked start (λ calls request. refl)

Served-count_example : after_two.provider_state ≤ 0 + 2
Served-count_example =
    Served-count service (λ calls. calls) start after_two refl (λ calls request. refl)
      (λ calls request. tt) refl two-Served

suggest_for_case-Ends_example :
    ((suggestion : SemanticSuggestion) × ((suggest_for_case service asked start).answer
        ≡ ok (eligible, some suggestion)))
    ⊎ ((refusal : SemanticReviewError) × ((suggest_for_case service asked start).answer
          ≡ err (semantic refusal))
        × (refusal.error_class ≡ ErrorClass.budget)
        × (service.provider.live ≡ true)
        × ((suggest_for_case service asked start).after.provider_state ≡ 0))
suggest_for_case-Ends_example =
    suggest_for_case-Ends service asked start (case_of "RC-1" "a" "b") eligible request rates priced
      (λ calls request. tt) refl routed refl built
