-- ===== src/SemanticReview/Service.antt =====
-- semantic_review/service.py: `SemanticReviewService.suggest_for_case`. The audit file that it writes
-- at the end is not modelled.
pub mod Cases
pub mod Spending
pub mod Answers
pub mod Progress
use ai_data_quality_platform.Base.{
  ℕ, ◌+◌, String, Bool, true, false, not, Option, none, some, if◌then◌else◌, Result, ok, err, ◌>>=◌,
}
use ai_data_quality_platform.Base.Assoc.{Dict}
use ai_data_quality_platform.EntityResolution.Models.{EntityRecord}
use ai_data_quality_platform.EntityResolution.Conflicts.{TextTools}
use ai_data_quality_platform.HumanReview.Models.{ReviewCase}
use ai_data_quality_platform.SemanticReview.Models.{
  SemanticReviewError, Raised, SemanticSuggestion, SemanticReviewRequest, SemanticRoutingDecision,
  SemanticReviewConfig,
}
use ai_data_quality_platform.SemanticReview.Request.{PromptTools, build_semantic_review_request}
use ai_data_quality_platform.SemanticReview.Policy.{RoutingContext, evaluate_routing}
use ai_data_quality_platform.SemanticReview.Budget.{CostTools, LiveBudget, live_budget}
use ai_data_quality_platform.SemanticReview.Attempts.{
  SemanticReviewProvider, ServiceState, Outcome, raised, suggest_loop,
}

-- The arguments of one call, with the two readings of the clock.
pub record SuggestCall : Type 0 where
  pub case : Option ReviewCase
  pub records_by_id : Dict EntityRecord
  pub context : RoutingContext
  pub routing_stamp : String
  pub request_stamp : String

-- The service as it was constructed.
pub record SemanticReviewService (S : Type 0) : Type 0 where
  pub texts : TextTools
  pub tools : PromptTools
  pub costs : CostTools
  pub config : SemanticReviewConfig
  pub provider : SemanticReviewProvider S
  pub require_enabled : Option Bool

abbrev pub Suggested : Type 0
Suggested = SemanticRoutingDecision × Option SemanticSuggestion

module _ {S : Type 0} (service : SemanticReviewService S) where
  -- `self._require_enabled`
  unfoldable pub requires_enabled : Bool
  requires_enabled = elim (service.require_enabled) [
    | none ↦ service.provider.live
    | some given ↦ given
  ]

  -- The budget of the attempts: that of the service, or a new one.
  unfoldable pub opened_budget : Option LiveBudget → Result SemanticReviewError LiveBudget
  unfolding live_budget
  opened_budget none = live_budget service.costs service.config
  opened_budget (some budget) = ok budget

  unfoldable pub routing_of : SuggestCall → Result Raised SemanticRoutingDecision
  unfolding evaluate_routing requires_enabled
  routing_of call =
      evaluate_routing service.texts service.tools call.case service.config call.context
        call.records_by_id requires_enabled call.routing_stamp

  -- The loop from the first attempt on.
  unfoldable pub attempts_with :
      SemanticReviewRequest → Option LiveBudget → S → Outcome S SemanticSuggestion
  unfolding suggest_loop
  attempts_with request budget provider_state =
      suggest_loop service.tools service.costs service.config service.provider request
        (service.config.max_retries + 1) 1 none
        (record { budget = budget; provider_state = provider_state })

  -- The attempts at a live provider, where the budget can be opened.
  unfoldable pub live_attempts :
      SemanticReviewRequest
      → ServiceState S
      → Result SemanticReviewError LiveBudget
      → Outcome S SemanticSuggestion
  unfolding attempts_with raised
  live_attempts request s (err e) = record { answer = raised (err e); after = s }
  live_attempts request s (ok budget) = attempts_with request (some budget) s.provider_state

  -- The attempts at a request. A provider that is not live leaves the budget of the service alone.
  unfoldable pub attempted : SemanticReviewRequest → ServiceState S → Outcome S SemanticSuggestion
  unfolding opened_budget attempts_with live_attempts
  attempted request s =
      if service.provider.live
      then live_attempts request s (opened_budget s.budget)
      else let tried = attempts_with request none s.provider_state in
        record {
          answer = tried.answer;
          after = record { budget = s.budget; provider_state = tried.after.provider_state };
        }

  -- What follows an eligible case.
  unfoldable pub suggest_on :
      ReviewCase → SemanticRoutingDecision → SuggestCall → ServiceState S → Outcome S Suggested
  unfolding build_semantic_review_request attempted
  suggest_on c routing call s =
      elim (build_semantic_review_request service.tools c call.records_by_id service.config
        call.request_stamp) [
          | err e ↦ record { answer = err e; after = s }
          | ok request ↦
              let tried = attempted request s in
              record {
                answer = tried.answer >>= λ suggestion. ok (routing, some suggestion);
                after = tried.after;
              }
        ]

  -- What follows the routing. A case that is missing is not eligible.
  unfoldable pub after_routing :
      Option ReviewCase
      → SemanticRoutingDecision
      → SuggestCall
      → ServiceState S
      → Outcome S Suggested
  unfolding suggest_on
  after_routing none routing call s = record { answer = ok (routing, none); after = s }
  after_routing (some c) routing call s =
      if routing.eligible
      then suggest_on c routing call s
      else record { answer = ok (routing, none); after = s }

  unfoldable pub suggest_for_case : SuggestCall → ServiceState S → Outcome S Suggested
  unfolding routing_of after_routing
  suggest_for_case call s = elim (routing_of call) [
    | err e ↦ record { answer = err e; after = s }
    | ok routing ↦ after_routing call.case routing call s
  ]
