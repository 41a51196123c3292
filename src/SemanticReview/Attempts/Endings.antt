-- ===== src/SemanticReview/Attempts/Endings.antt =====
-- How the loop over the attempts ends.
use ai_data_quality_platform.Base.{
  [], ◌∷◌, ℕ, ◌+◌, ◌≤◌, ◌-◌, Option, none, some, Result, ok, err, ◌≡◌, ◌≢◌, refl, ap, sym, subst,
  ◌∙◌, ◌⊎◌, inl, inr, arith, returned-bind, returns-bind, if◌then◌else◌, ok-injective,
}
use ai_data_quality_platform.EntityResolution.Conflicts.{zero_point_zero}
use ai_data_quality_platform.SemanticReview.Models.{
  SemanticSuggestionType, failure_value, SemanticReviewError, failure_code, Raised, semantic,
  SemanticReviewRequest, SemanticSuggestion, SemanticReviewConfig, ModelPricing, CostMode,
}
use ai_data_quality_platform.SemanticReview.Request.{PromptTools, first_chars}
use ai_data_quality_platform.SemanticReview.Budget.{
  CostTools, UnknownCost, estimate_unknown_cost, require_model_rates,
}
use ai_data_quality_platform.SemanticReview.Attempts.{
  SemanticReviewProvider, ServiceState, Outcome, may_call, failure_suggestion, refused, raised,
}
use ai_data_quality_platform.SemanticReview.Attempts.Tries.{
  Tries, exhausted, refused_at, returned, failed, retried, escaped, unpaid_at,
}
use ai_data_quality_platform.SemanticReview.Attempts.Counting.{
  Translates, IsTranslated, foreign_untranslated,
}

-- A suggestion that stands for an error of the provider, about the pair of the request.
pub record IsFailure (request : SemanticReviewRequest) (e : SemanticReviewError)
    (s : SemanticSuggestion) : Type 0 where
  pub fails_closed : s.suggestion ≡ SemanticSuggestionType.provider_failure
  pub same_case : s.review_case_id ≡ request.review_case_id
  pub same_left : s.record_a_id ≡ request.record_a_id
  pub same_right : s.record_b_id ≡ request.record_b_id
  pub code : s.failure_code ≡ some (failure_code e)
  pub reasons : s.reason_codes ≡ failure_value (failure_code e) ∷ []
  pub explains : s.explanation ≡ first_chars 400 e.message

-- The call of the provider that led to its present state raised the error.
pub record RaisedLast {S : Type 0} (provider : SemanticReviewProvider S)
    (request : SemanticReviewRequest) (e : SemanticReviewError) (present : S) : Type 0 where
  pub at : S
  pub raises : (provider.suggest at request).answer ≡ err (semantic e)
  pub reached : present ≡ (provider.suggest at request).next

-- A provider that never returns a suggestion.
abbrev pub NeverReturns : {S : Type 0} → SemanticReviewProvider S → Type 0
NeverReturns {S} provider =
    (s : S) (request : SemanticReviewRequest) (suggestion : SemanticSuggestion)
    → (provider.suggest s request).answer ≢ ok suggestion

module _ {S : Type 0} (tools : PromptTools) (costs : CostTools) (config : SemanticReviewConfig)
    (provider : SemanticReviewProvider S) (request : SemanticReviewRequest) where
  estimate_unknown_cost-returns :
      (rates : ModelPricing)
      → require_model_rates config ≡ ok rates
      → (cost : UnknownCost) × (◌≡◌ {A = Result Raised UnknownCost}
          (raised (estimate_unknown_cost config provider.live))
          (ok cost))
  unfolding estimate_unknown_cost raised
  estimate_unknown_cost-returns rates priced = (
    record {
      actual_provider_cost_usd = if provider.live then none else some zero_point_zero;
      cost_mode = if provider.live then CostMode.live else CostMode.simulated;
    },
    rw priced refl,
  )

  -- Where the model has a price a failure can always be answered.
  failure_suggestion-returns :
      (attempts : ℕ) (e : SemanticReviewError) (rates : ModelPricing)
      → require_model_rates config ≡ ok rates
      → (s : SemanticSuggestion) × (failure_suggestion tools costs config provider request attempts
            e
          ≡ ok s)
  unfolding failure_suggestion
  failure_suggestion-returns attempts e rates priced =
      returns-bind (raised (estimate_unknown_cost config provider.live)) _
        (estimate_unknown_cost-returns rates priced) (λ cost. (_, refl))

  failure_suggestion-IsFailure :
      (attempts : ℕ) (e : SemanticReviewError) (s : SemanticSuggestion)
      → failure_suggestion tools costs config provider request attempts e ≡ ok s
      → IsFailure request e s × (s.attempt_count ≡ attempts)
  unfolding failure_suggestion
  failure_suggestion-IsFailure attempts e s h =
      let (cost, made, estimated) =
        returned-bind (raised (estimate_unknown_cost config provider.live)) _ h in
      let same = ok-injective made in
      (
        record {
          fails_closed = ap (λ (t : SemanticSuggestion). t.suggestion) (sym same);
          same_case = ap (λ (t : SemanticSuggestion). t.review_case_id) (sym same);
          same_left = ap (λ (t : SemanticSuggestion). t.record_a_id) (sym same);
          same_right = ap (λ (t : SemanticSuggestion). t.record_b_id) (sym same);
          code = ap (λ (t : SemanticSuggestion). t.failure_code) (sym same);
          reasons = ap (λ (t : SemanticSuggestion). t.reason_codes) (sym same);
          explains = ap (λ (t : SemanticSuggestion). t.explanation) (sym same);
        },
        ap (λ (t : SemanticSuggestion). t.attempt_count) (sym same),
      )

  Answers : Outcome S SemanticSuggestion → Type 0
  Answers out = (s : SemanticSuggestion) × (out.answer ≡ ok s)

  -- After a first failure every end of the loop is a suggestion.
  Tries-Answers :
      (left attempt : ℕ) (last : SemanticReviewError) (s : ServiceState S)
      (out : Outcome S SemanticSuggestion) (rates : ModelPricing)
      → require_model_rates config ≡ ok rates
      → Translates provider
      → left + attempt ≡ config.max_retries + 2
      → attempt ≤ config.max_retries + 1
      → Tries tools costs config provider request left attempt (some last) s out
      → Answers out
  unfolding Answers refused
  Tries-Answers _ attempt last s out rates priced translates sum low (exhausted _ _ _ _ _) =
      absurd (omega arith)
  Tries-Answers _ attempt last s out rates priced translates sum low
        (refused_at _ _ _ _ _ refusal _ answered _) =
      let (suggestion, made) = failure_suggestion-returns (attempt - 1) last rates priced in
      (suggestion, answered ∙ made)
  Tries-Answers _ attempt last s out rates priced translates sum low
        (returned _ _ _ _ _ _ _ _ answered _) =
      (_, answered)
  Tries-Answers _ attempt last s out rates priced translates sum low
        (failed _ _ _ _ _ e _ _ answered _) =
      let (suggestion, made) = failure_suggestion-returns attempt e rates priced in
      (suggestion, answered ∙ made)
  Tries-Answers _ attempt last s out rates priced translates sum low
        (retried left _ _ _ _ e _ _ _ early later) =
      Tries-Answers left (attempt + 1) e (unpaid_at tools costs config provider request s) out rates
        priced translates (omega arith) (ground arith) later
  Tries-Answers _ attempt last s out rates priced translates sum low
        (escaped _ _ _ _ _ other _ called outside _ _) =
      absurd (
        foreign_untranslated other outside
          (subst IsTranslated called (translates s.provider_state request)))

  -- From the first attempt on: a suggestion, or the budget's refusal before any call.
  pub Tries-ends :
      (left attempt : ℕ) (s : ServiceState S) (out : Outcome S SemanticSuggestion)
      (rates : ModelPricing)
      → require_model_rates config ≡ ok rates
      → Translates provider
      → left + attempt ≡ config.max_retries + 2
      → attempt ≤ config.max_retries + 1
      → Tries tools costs config provider request left attempt none s out
      → ((suggestion : SemanticSuggestion) × (out.answer ≡ ok suggestion))
        ⊎ ((refusal : SemanticReviewError) × (out.answer ≡ err (semantic refusal))
            × (may_call tools costs config provider s.budget ≡ err refusal)
            × (out.after ≡ s))
  unfolding Answers refused
  Tries-ends _ attempt s out rates priced translates sum low (exhausted _ _ _ _ _) =
      absurd (omega arith)
  Tries-ends _ attempt s out rates priced translates sum low
        (refused_at _ _ _ _ _ refusal stops answered same) =
      inr (refusal, answered, stops, same)
  Tries-ends _ attempt s out rates priced translates sum low (returned _ _ _ _ _ _ _ _ answered _) =
      inl (_, answered)
  Tries-ends _ attempt s out rates priced translates sum low (failed _ _ _ _ _ e _ _ answered _) =
      let (suggestion, made) = failure_suggestion-returns attempt e rates priced in
      inl (suggestion, answered ∙ made)
  Tries-ends _ attempt s out rates priced translates sum low
        (retried left _ _ _ _ e _ _ _ early later) =
      inl (
        Tries-Answers left (attempt + 1) e (unpaid_at tools costs config provider request s) out
          rates priced translates (omega arith) (ground arith) later)
  Tries-ends _ attempt s out rates priced translates sum low
        (escaped _ _ _ _ _ other _ called outside _ _) =
      absurd (
        foreign_untranslated other outside
          (subst IsTranslated called (translates s.provider_state request)))

  -- The last error of the loop is that of the call before.
  abbrev pub LastRaised : Option SemanticReviewError → S → Type 0
  LastRaised none present = Unit {0}
  LastRaised (some e) present = RaisedLast provider request e present

  -- A failure for the error of the last call of the provider.
  pub record FailsClosed (present : S) (s : SemanticSuggestion) : Type 0 where
    pub error : SemanticReviewError
    pub was_raised : RaisedLast provider request error present
    pub failure : IsFailure request error s
    pub attempts : s.attempt_count ≤ config.max_retries + 1

  failed-FailsClosed :
      (attempts : ℕ) (e : SemanticReviewError) (s : SemanticSuggestion) (present present' : S)
      → attempts ≤ config.max_retries + 1
      → RaisedLast provider request e present
      → present' ≡ present
      → failure_suggestion tools costs config provider request attempts e ≡ ok s
      → FailsClosed present' s
  failed-FailsClosed attempts e s present present' low was same made =
      let (failure, counted) = failure_suggestion-IsFailure attempts e s made in
      record {
        error = e;
        was_raised = subst (RaisedLast provider request e) (sym same) was;
        failure = failure;
        attempts = omega arith;
      }

  -- A provider that never returns leaves no suggestion but the failure.
  pub Tries-FailsClosed :
      (left attempt : ℕ) (last : Option SemanticReviewError) (s : ServiceState S)
      (out : Outcome S SemanticSuggestion) (suggestion : SemanticSuggestion)
      → NeverReturns provider
      → left + attempt ≡ config.max_retries + 2
      → attempt ≤ config.max_retries + 1
      → LastRaised last s.provider_state
      → Tries tools costs config provider request left attempt last s out
      → out.answer ≡ ok suggestion
      → FailsClosed out.after.provider_state suggestion
  unfolding refused
  Tries-FailsClosed _ attempt last s out suggestion never sum low was (exhausted _ _ _ _ _) given =
      absurd (omega arith)
  Tries-FailsClosed _ attempt none s out suggestion never sum low was
        (refused_at _ _ _ _ _ refusal _ answered _) given =
      cc
  Tries-FailsClosed _ attempt (some e) s out suggestion never sum low was
        (refused_at _ _ _ _ _ refusal _ answered same) given =
      failed-FailsClosed (attempt - 1) e suggestion s.provider_state out.after.provider_state
        (omega arith) was (ap (λ (t : ServiceState S). t.provider_state) same)
        (sym answered ∙ given)
  Tries-FailsClosed _ attempt last s out suggestion never sum low was
        (returned _ _ _ _ _ own _ called _ _) given =
      absurd (never s.provider_state request own called)
  Tries-FailsClosed _ attempt last s out suggestion never sum low was
        (failed _ _ _ _ _ e _ called answered after) given =
      failed-FailsClosed attempt e suggestion (provider.suggest s.provider_state request).next
        out.after.provider_state low
        (record { at = s.provider_state; raises = called; reached = refl })
        (ap (λ (t : ServiceState S). t.provider_state) after) (sym answered ∙ given)
  Tries-FailsClosed _ attempt last s out suggestion never sum low was
        (retried left _ _ _ _ e _ called _ early later) given =
      Tries-FailsClosed left (attempt + 1) (some e)
        (unpaid_at tools costs config provider request s) out suggestion never (omega arith)
        (ground arith) (record { at = s.provider_state; raises = called; reached = refl }) later
        given
  Tries-FailsClosed _ attempt last s out suggestion never sum low was
        (escaped _ _ _ _ _ other _ called outside answered _) given =
      cc
