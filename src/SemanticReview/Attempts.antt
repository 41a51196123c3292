-- ===== src/SemanticReview/Attempts.antt =====
-- semantic_review/service.py: the attempts at one request, with their retries and their budget.
pub mod Tries
pub mod Counting
pub mod Endings
use Prim.Native.String.{◌++◌}
use ai_data_quality_platform.Base.{
  ℕ, zero, suc, ◌+◌, ◌-◌, String, Bool, true, false, not, Option, none, some, [], ◌∷◌, leb, ◌&&◌,
  if◌then◌else◌, Result, ok, err, ◌>>=◌,
}
use ai_data_quality_platform.Base.Float.{Float}
use ai_data_quality_platform.SemanticReview.Models.{
  SemanticSuggestionType, suggestion_value, failure_value, SemanticReviewError, ErrorClass,
  failure_code, Raised, semantic, SemanticReviewRequest, SemanticSuggestion, SemanticReviewConfig,
}
use ai_data_quality_platform.SemanticReview.Request.{PromptTools, first_chars}
use ai_data_quality_platform.SemanticReview.Budget.{
  CostTools, LiveBudget, assert_can_call, consume_attempt, estimate_unknown_cost,
}

-- One call of a provider: what it returned or raised, how long it took, and its next state.
pub record ProviderCall (S : Type 0) : Type 0 where
  pub answer : Result Raised SemanticSuggestion
  pub latency_ms : ℕ
  pub next : S

pub record SemanticReviewProvider (S : Type 0) : Type 0 where
  pub provider_name : String
  pub live : Bool
  pub suggest : S → SemanticReviewRequest → ProviderCall S

-- What a call of the service may use and change: the budget and the provider's state.
pub record ServiceState (S : Type 0) : Type 0 where
  pub budget : Option LiveBudget
  pub provider_state : S

pub record Outcome (S A : Type 0) : Type 0 where
  pub answer : Result Raised A
  pub after : ServiceState S

-- `RETRYABLE`
unfoldable pub is_retryable : ErrorClass → Bool
is_retryable ErrorClass.timeout = true
is_retryable ErrorClass.rate_limit = true
is_retryable ErrorClass.provider = true
is_retryable _ = false

-- An error of the module leaves the call.
unfoldable pub raised {ℓ} : {A : Type ℓ} → Result SemanticReviewError A → Result Raised A
raised (ok a) = ok a
raised (err e) = err (semantic e)

module _ {S : Type 0} (tools : PromptTools) (costs : CostTools) (config : SemanticReviewConfig)
    (provider : SemanticReviewProvider S) where
  stable_suggestion_id : String → SemanticSuggestionType → ℕ → String → String
  unfolding first_chars suggestion_value
  stable_suggestion_id request_id suggestion attempts fingerprint =
      "LS-"
      ++ first_chars 16
          (tools.suggestion_digest request_id (suggestion_value suggestion) attempts fingerprint)

  -- `_with_attempts`
  unfoldable pub with_attempts : SemanticSuggestion → ℕ → ℕ → SemanticSuggestion
  unfolding stable_suggestion_id
  with_attempts s attempts latency = record s {
    attempt_count = attempts;
    latency_ms = latency;
    suggestion_id = stable_suggestion_id s.request_id s.suggestion attempts s.request_fingerprint;
  }

  -- `_failure_suggestion`
  unfoldable pub failure_suggestion :
      SemanticReviewRequest → ℕ → SemanticReviewError → Result Raised SemanticSuggestion
  unfolding stable_suggestion_id failure_value failure_code first_chars estimate_unknown_cost raised
  failure_suggestion request attempts e =
      raised (estimate_unknown_cost config provider.live) >>= λ cost. ok record {
        suggestion_id =
            stable_suggestion_id request.request_id SemanticSuggestionType.provider_failure attempts
              request.request_fingerprint;
        request_id = request.request_id;
        review_case_id = request.review_case_id;
        record_a_id = request.record_a_id;
        record_b_id = request.record_b_id;
        suggestion = SemanticSuggestionType.provider_failure;
        reason_codes = failure_value (failure_code e) ∷ [];
        explanation = first_chars 400 e.message;
        provider = provider.provider_name;
        requested_model = config.model;
        returned_model = none;
        model_snapshot = none;
        provider_request_id = none;
        prompt_version = request.prompt_version;
        prompt_template_hash = request.prompt_template_hash;
        request_schema_version = request.request_schema_version;
        response_schema_version = request.response_schema_version;
        request_fingerprint = request.request_fingerprint;
        attempt_count = attempts;
        latency_ms = 0;
        input_token_count = 0;
        cached_input_token_count = 0;
        output_token_count = 0;
        reasoning_token_count = 0;
        estimated_cost_usd = cost.actual_provider_cost_usd;
        actual_provider_cost_usd = cost.actual_provider_cost_usd;
        hypothetical_model_cost_usd = none;
        cost_mode = cost.cost_mode;
        usage_available = false;
        pricing_version = config.pricing_version;
        failure_code = some (failure_code e);
        created_at_utc = request.created_at_utc;
        live = provider.live;
        result_source = "provider_failure_fail_closed";
      }

  -- `budget.assert_can_call()` and `budget.consume_attempt(cost)`, where there is a budget
  unfoldable pub may_call : Option LiveBudget → Result SemanticReviewError (Unit {0})
  unfolding assert_can_call
  may_call none = ok tt
  may_call (some budget) = assert_can_call costs config budget

  unfoldable pub consumed : Option Float → Option LiveBudget → Option LiveBudget
  unfolding consume_attempt
  consumed actual none = none
  consumed actual (some budget) = some (consume_attempt costs actual budget)

  -- The budget refused the next attempt: the last error is answered, or the refusal is raised.
  unfoldable pub refused :
      SemanticReviewRequest
      → ℕ
      → Option SemanticReviewError
      → SemanticReviewError
      → Result Raised SemanticSuggestion
  unfolding failure_suggestion
  refused request attempt none refusal = err (semantic refusal)
  refused request attempt (some last_error) refusal =
      failure_suggestion request (attempt - 1) last_error

  -- The clauses on one answer of the provider; `again` is the next round of the loop.
  unfoldable pub after_answer :
      SemanticReviewRequest
      → ℕ
      → ServiceState S
      → ProviderCall S
      → (SemanticReviewError → ServiceState S → Outcome S SemanticSuggestion)
      → Result Raised SemanticSuggestion
      → Outcome S SemanticSuggestion
  unfolding failure_suggestion with_attempts consumed is_retryable
  after_answer request attempt s call again (ok suggestion) = record {
    answer = ok (with_attempts suggestion attempt call.latency_ms);
    after = record {
      budget = consumed suggestion.actual_provider_cost_usd s.budget;
      provider_state = call.next;
    };
  }
  after_answer request attempt s call again (err (semantic e)) =
      let unpaid : ServiceState S = record {
        budget = consumed none s.budget;
        provider_state = call.next;
      } in
      elim (is_retryable e.error_class && not (leb (config.max_retries + 1) attempt)) [
        | true ↦ again e unpaid
        | false ↦ record { answer = failure_suggestion request attempt e; after = unpaid }
      ]
  after_answer request attempt s call again (err other) = record {
    answer = err other;
    after = record { budget = s.budget; provider_state = call.next };
  }

  -- The loop from one attempt on, with the number of the attempts left and the last error.
  unfoldable pub suggest_loop :
      SemanticReviewRequest
      → ℕ
      → ℕ
      → Option SemanticReviewError
      → ServiceState S
      → Outcome S SemanticSuggestion
  unfolding failure_suggestion may_call refused after_answer
  suggest_loop request zero attempt none s = record {
    answer = err (
        semantic record {
          error_class = ErrorClass.routing;
          own_failure_code = none;
          message = "Provider returned no suggestion.";
        });
    after = s;
  }
  suggest_loop request zero attempt (some last_error) s = record {
    answer = failure_suggestion request (config.max_retries + 1) last_error;
    after = s;
  }
  suggest_loop request (suc left) attempt last_error s = elim (may_call s.budget) [
    | err refusal ↦ record { answer = refused request attempt last_error refusal; after = s }
    | ok allowed ↦
        let call : ProviderCall S = provider.suggest s.provider_state request in
        after_answer request attempt s call
          (λ e next. suggest_loop request left (attempt + 1) (some e) next) call.answer
  ]
