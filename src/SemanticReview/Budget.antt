-- ===== src/SemanticReview/Budget.antt =====
-- semantic_review/budget.py and the part of cost.py that it rests on: the cap on the live calls of a
-- run. Sums of costs, which Python rounds to eight digits, are arguments.
use ai_data_quality_platform.Base.{
  ℕ, ◌+◌, ◌-◌, Bool, Option, none, some, leb, if◌then◌else◌, Result, ok, ◌>>=◌, ◌>>◌, or_raise,
  raise_if,
}
use ai_data_quality_platform.Base.Assoc.{lookup}
use ai_data_quality_platform.Base.Float.{Float, float_lt}
use ai_data_quality_platform.EntityResolution.Conflicts.{zero_point_zero}
use ai_data_quality_platform.SemanticReview.Models.{
  CostMode, SemanticReviewError, ErrorClass, ModelPricing, SemanticReviewConfig,
}

-- `x + y`, `round(x, 8)`, and the rounded price of input and output tokens at a model's rates.
pub record CostTools : Type 0 where
  pub plus : Float → Float → Float
  pub round_cost : Float → Float
  pub token_cost : ModelPricing → ℕ → ℕ → Float

-- `_require_model_rates`
unfoldable pub require_model_rates : SemanticReviewConfig → Result SemanticReviewError ModelPricing
unfolding lookup
require_model_rates config = or_raise (lookup config.model config.pricing_models) (record {
  error_class = ErrorClass.configuration;
  message = "No pricing entry for model.";
  own_failure_code = none;
})

-- `estimate_cost` where the usage is not available: the actual cost and the mode.
pub record UnknownCost : Type 0 where
  pub actual_provider_cost_usd : Option Float
  pub cost_mode : CostMode

unfoldable pub estimate_unknown_cost :
    SemanticReviewConfig → Bool → Result SemanticReviewError UnknownCost
unfolding require_model_rates
estimate_unknown_cost config live = require_model_rates config >>= λ rates. ok record {
  actual_provider_cost_usd = if live then none else some zero_point_zero;
  cost_mode = if live then CostMode.live else CostMode.simulated;
}

pub record LiveBudget : Type 0 where
  pub calls : ℕ
  pub spent_usd : Float
  pub reserved_usd : Float

unfoldable pub budget_error : SemanticReviewError
budget_error = record {
  error_class = ErrorClass.budget;
  message = "No further provider request.";
  own_failure_code = none;
}

module _ (costs : CostTools) where
  -- `conservative_call_cost_usd`
  unfoldable pub conservative_call_cost_usd :
      SemanticReviewConfig → Result SemanticReviewError Float
  unfolding require_model_rates
  conservative_call_cost_usd config = require_model_rates config >>= λ rates.
      ok (costs.token_cost rates config.max_input_tokens config.max_output_tokens)

  -- `LiveBudget(config)`
  unfoldable pub live_budget : SemanticReviewConfig → Result SemanticReviewError LiveBudget
  unfolding conservative_call_cost_usd
  live_budget config = conservative_call_cost_usd config >>= λ reserved.
      ok record { calls = 0; spent_usd = zero_point_zero; reserved_usd = reserved }

  unfoldable pub remaining_calls : SemanticReviewConfig → LiveBudget → ℕ
  remaining_calls config budget = config.max_live_calls - budget.calls

  unfoldable pub assert_can_call :
      SemanticReviewConfig → LiveBudget → Result SemanticReviewError (Unit {0})
  unfolding budget_error
  assert_can_call config budget =
      raise_if (leb config.max_live_calls budget.calls) budget_error
      >> raise_if (float_lt config.max_live_usd (costs.plus budget.spent_usd budget.reserved_usd))
          budget_error

  unfoldable pub consume_attempt : Option Float → LiveBudget → LiveBudget
  consume_attempt (some actual) budget = record budget {
    calls = budget.calls + 1;
    spent_usd = costs.round_cost (costs.plus budget.spent_usd actual);
  }
  consume_attempt none budget = record budget {
    calls = budget.calls + 1;
    spent_usd = costs.round_cost (costs.plus budget.spent_usd budget.reserved_usd);
  }
