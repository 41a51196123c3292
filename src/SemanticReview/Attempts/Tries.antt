-- ===== src/SemanticReview/Attempts/Tries.antt =====
-- The rounds of the loop over the attempts as a relation.
use ai_data_quality_platform.Base.{
  ℕ, zero, suc, ◌+◌, Bool, true, false, not, Option, none, some, leb, ◌&&◌, Result, ok, err, ◌≡◌,
  refl, inl, inr, Bool-cases, Result-cases,
}
use ai_data_quality_platform.SemanticReview.Models.{
  SemanticReviewError, Raised, semantic, human_review, key_or_value_error, foreign,
  SemanticReviewRequest, SemanticSuggestion, SemanticReviewConfig,
}
use ai_data_quality_platform.SemanticReview.Request.{PromptTools}
use ai_data_quality_platform.SemanticReview.Budget.{CostTools}
use ai_data_quality_platform.SemanticReview.Attempts.{
  ProviderCall, SemanticReviewProvider, ServiceState, Outcome, suggest_loop, may_call, consumed,
  is_retryable, refused, failure_suggestion, with_attempts, after_answer,
}

-- An exception that is no error of this module.
abbrev pub IsForeign : Raised → Type 0
IsForeign (semantic e) = ⊥
IsForeign _ = Unit {0}

module _ {S : Type 0} (tools : PromptTools) (costs : CostTools) (config : SemanticReviewConfig)
    (provider : SemanticReviewProvider S) (request : SemanticReviewRequest) where
  abbrev pub call_at : ServiceState S → ProviderCall S
  call_at s = provider.suggest s.provider_state request

  -- The state after an attempt without a known cost.
  abbrev pub unpaid_at : ServiceState S → ServiceState S
  unpaid_at s = record {
    budget = consumed tools costs config provider none s.budget;
    provider_state = (call_at s).next;
  }

  pub data Tries
      : (left attempt : ℕ) (last : Option SemanticReviewError) (s : ServiceState S)
          (out : Outcome S SemanticSuggestion)
        → Type 0 where
    exhausted :
        (attempt : ℕ) (last : Option SemanticReviewError) (s : ServiceState S)
        (out : Outcome S SemanticSuggestion)
        → out.after ≡ s
        → Tries zero attempt last s out
    -- The budget refuses the attempt.
    refused_at :
        (left attempt : ℕ) (last : Option SemanticReviewError) (s : ServiceState S)
        (out : Outcome S SemanticSuggestion) (refusal : SemanticReviewError)
        → may_call tools costs config provider s.budget ≡ err refusal
        → out.answer ≡ refused tools costs config provider request attempt last refusal
        → out.after ≡ s
        → Tries (suc left) attempt last s out
    -- The provider returns.
    returned :
        (left attempt : ℕ) (last : Option SemanticReviewError) (s : ServiceState S)
        (out : Outcome S SemanticSuggestion) (suggestion : SemanticSuggestion)
        → may_call tools costs config provider s.budget ≡ ok tt
        → (call_at s).answer ≡ ok suggestion
        → out.answer
          ≡ ok (with_attempts tools costs config provider suggestion attempt (call_at s).latency_ms)
        → out.after ≡ (record {
          budget =
              consumed tools costs config provider suggestion.actual_provider_cost_usd s.budget;
          provider_state = (call_at s).next;
        })
        → Tries (suc left) attempt last s out
    -- An error that is not retried, or not any more.
    failed :
        (left attempt : ℕ) (last : Option SemanticReviewError) (s : ServiceState S)
        (out : Outcome S SemanticSuggestion) (e : SemanticReviewError)
        → may_call tools costs config provider s.budget ≡ ok tt
        → (call_at s).answer ≡ err (semantic e)
        → out.answer ≡ failure_suggestion tools costs config provider request attempt e
        → out.after ≡ unpaid_at s
        → Tries (suc left) attempt last s out
    -- A transient error before the last attempt.
    retried :
        (left attempt : ℕ) (last : Option SemanticReviewError) (s : ServiceState S)
        (out : Outcome S SemanticSuggestion) (e : SemanticReviewError)
        → may_call tools costs config provider s.budget ≡ ok tt
        → (call_at s).answer ≡ err (semantic e)
        → is_retryable e.error_class ≡ true
        → leb (config.max_retries + 1) attempt ≡ false
        → Tries left (attempt + 1) (some e) (unpaid_at s) out
        → Tries (suc left) attempt last s out
    -- Any other exception leaves the loop, and its attempt is not counted.
    escaped :
        (left attempt : ℕ) (last : Option SemanticReviewError) (s : ServiceState S)
        (out : Outcome S SemanticSuggestion) (raised : Raised)
        → may_call tools costs config provider s.budget ≡ ok tt
        → (call_at s).answer ≡ err raised
        → IsForeign raised
        → out.answer ≡ err raised
        → out.after ≡ (record { budget = s.budget; provider_state = (call_at s).next })
        → Tries (suc left) attempt last s out

  and_cases : (a b : Bool) → (a && not b) ≡ true → (a ≡ true) × (b ≡ false)
  and_cases true false h = (refl, refl)
  and_cases true true h = cc
  and_cases false b h = cc

  again : ℕ → ℕ → SemanticReviewError → ServiceState S → Outcome S SemanticSuggestion
  unfolding suggest_loop
  again left attempt e next =
      suggest_loop tools costs config provider request left (attempt + 1) (some e) next

  tried :
      (left attempt : ℕ) (last : Option SemanticReviewError) (s : ServiceState S)
      (answer : Result Raised SemanticSuggestion)
      → may_call tools costs config provider s.budget ≡ ok tt
      → (call_at s).answer ≡ answer
      → ((e : SemanticReviewError)
          → Tries left (attempt + 1) (some e) (unpaid_at s) (again left attempt e (unpaid_at s)))
      → Tries (suc left) attempt last s (
          after_answer tools costs config provider request attempt s
            (call_at s)
            (again left attempt)
            answer)
  unfolding after_answer
  tried left attempt last s (ok suggestion) allowed answered later =
      returned left attempt last s _ suggestion allowed answered refl refl
  tried left attempt last s (err (semantic e)) allowed answered later =
      elim (Bool-cases (is_retryable e.error_class && not (leb (config.max_retries + 1) attempt))) [
        | inl more ↦
            let (retryable, early) =
              and_cases (is_retryable e.error_class) (leb (config.max_retries + 1) attempt) more in
            rw (more, after_answer)
              (retried left attempt last s _ e allowed answered retryable early (later e))
        | inr last_one ↦
            rw (last_one, after_answer) (failed left attempt last s _ e allowed answered refl refl)
      ]
  tried left attempt last s (err (human_review e)) allowed answered later =
      escaped left attempt last s _ (human_review e) allowed answered tt refl refl
  tried left attempt last s (err key_or_value_error) allowed answered later =
      escaped left attempt last s _ key_or_value_error allowed answered tt refl refl
  tried left attempt last s (err foreign) allowed answered later =
      escaped left attempt last s _ foreign allowed answered tt refl refl

  -- The loop is such a sequence of rounds.
  pub suggest_loop-Tries :
      (left attempt : ℕ) (last : Option SemanticReviewError) (s : ServiceState S)
      → Tries left attempt last s
          (suggest_loop tools costs config provider request left attempt last s)
  unfolding suggest_loop again
  suggest_loop-Tries zero attempt none s = exhausted attempt none s _ refl
  suggest_loop-Tries zero attempt (some e) s = exhausted attempt (some e) s _ refl
  suggest_loop-Tries (suc left) attempt last s =
      elim (Result-cases (may_call tools costs config provider s.budget)) [
        | inl (refusal, stops) ↦
            rw (stops, suggest_loop) (refused_at left attempt last s _ refusal stops refl refl)
        | inr (passed, allowed) ↦
            rw (allowed, suggest_loop)
              (tried left attempt last s (call_at s).answer allowed refl
                (λ e. suggest_loop-Tries left (attempt + 1) (some e) (unpaid_at s)))
      ]
