-- ===== src/SemanticReview/Attempts/Counting.antt =====
-- How often the loop over the attempts asks the provider, and what it takes from the budget.
use ai_data_quality_platform.Base.{
  ℕ, suc, ◌+◌, ◌≤◌, ◌<◌, Option, none, some, Result, ok, err, ◌≡◌, refl, ap, subst, ◌∙◌, arith,
}
use ai_data_quality_platform.Base.Float.{Float}
use ai_data_quality_platform.SemanticReview.Models.{
  SemanticReviewError, Raised, semantic, SemanticReviewRequest, SemanticSuggestion,
  SemanticReviewConfig,
}
use ai_data_quality_platform.SemanticReview.Request.{PromptTools}
use ai_data_quality_platform.SemanticReview.Budget.{
  CostTools, LiveBudget, assert_can_call, consume_attempt,
}
use ai_data_quality_platform.SemanticReview.Attempts.{
  SemanticReviewProvider, ServiceState, Outcome, may_call, consumed,
}
use ai_data_quality_platform.SemanticReview.Attempts.Tries.{
  IsForeign, Tries, exhausted, refused_at, returned, failed, retried, escaped, unpaid_at,
}

-- A count of the calls that the provider's state shows.
abbrev pub Counts : {S : Type 0} → SemanticReviewProvider S → (S → ℕ) → Type 0
Counts {S} provider count =
    (s : S) (request : SemanticReviewRequest)
    → count (provider.suggest s request).next ≡ suc (count s)

abbrev pub calls_of : Option LiveBudget → ℕ
calls_of none = 0
calls_of (some budget) = budget.calls

abbrev pub IsTranslated : Result Raised SemanticSuggestion → Type 0
IsTranslated (ok suggestion) = Unit {0}
IsTranslated (err (semantic e)) = Unit {0}
IsTranslated (err _) = ⊥

-- A provider that turns every exception into an error of this module.
abbrev pub Translates : {S : Type 0} → SemanticReviewProvider S → Type 0
Translates {S} provider =
    (s : S) (request : SemanticReviewRequest) → IsTranslated (provider.suggest s request).answer

pub foreign_untranslated : (raised : Raised) → IsForeign raised → IsTranslated (err raised) → ⊥
foreign_untranslated (semantic e) f t = f
foreign_untranslated Raised.foreign f t = t
foreign_untranslated Raised.key_or_value_error f t = t
foreign_untranslated (Raised.human_review e) f t = t

module _ {S : Type 0} (tools : PromptTools) (costs : CostTools) (config : SemanticReviewConfig)
    (provider : SemanticReviewProvider S) (request : SemanticReviewRequest) (count : S → ℕ) where
  -- Every round calls the provider at most once.
  pub Tries-count :
      (left attempt : ℕ) (last : Option SemanticReviewError) (s : ServiceState S)
      (out : Outcome S SemanticSuggestion)
      → Counts provider count
      → Tries tools costs config provider request left attempt last s out
      → count out.after.provider_state ≤ count s.provider_state + left
  Tries-count _ attempt last s out counts (exhausted _ _ _ _ same) =
      omega (arith, ap (λ (t : ServiceState S). count t.provider_state) same)
  Tries-count _ attempt last s out counts (refused_at _ _ _ _ _ _ _ _ same) =
      omega (arith, ap (λ (t : ServiceState S). count t.provider_state) same)
  Tries-count _ attempt last s out counts (returned _ _ _ _ _ _ _ _ _ after) = omega (
    arith,
    ap (λ (t : ServiceState S). count t.provider_state) after,
    counts s.provider_state request,
  )
  Tries-count _ attempt last s out counts (failed _ _ _ _ _ _ _ _ _ after) = omega (
    arith,
    ap (λ (t : ServiceState S). count t.provider_state) after,
    counts s.provider_state request,
  )
  Tries-count _ attempt last s out counts (retried left _ _ _ _ e _ _ _ _ later) = omega (
    arith,
    counts s.provider_state request,
    Tries-count left (attempt + 1) (some e) (unpaid_at tools costs config provider request s) out
        counts later,
  )
  Tries-count _ attempt last s out counts (escaped _ _ _ _ _ _ _ _ _ _ after) = omega (
    arith,
    ap (λ (t : ServiceState S). count t.provider_state) after,
    counts s.provider_state request,
  )

  -- The budget after a run of rounds: each call was taken from it, and it stays within the cap.
  pub record Spent (before : LiveBudget) (start : ℕ) (t : ServiceState S) : Type 0 where
    pub budget : LiveBudget
    pub kept : t.budget ≡ some budget
    pub paid : count t.provider_state + before.calls ≡ start + budget.calls
    pub capped : before.calls ≤ config.max_live_calls → budget.calls ≤ config.max_live_calls

  may_call-below :
      (b : LiveBudget)
      → may_call tools costs config provider (some b) ≡ ok tt
      → b.calls < config.max_live_calls
  unfolding may_call assert_can_call
  may_call-below b h = ground arith

  consumed-calls :
      (actual : Option Float) (b : LiveBudget)
      → (b' : LiveBudget) × (consumed tools costs config provider actual (some b) ≡ some b')
        × (b'.calls ≡ b.calls + 1)
  unfolding consumed consume_attempt
  consumed-calls none b = (_, refl, refl)
  consumed-calls (some actual) b = (_, refl, refl)

  -- One call that was paid.
  one_call :
      (b : LiveBudget) (s t : ServiceState S) (actual : Option Float)
      → Counts provider count
      → s.budget ≡ some b
      → may_call tools costs config provider s.budget ≡ ok tt
      → t ≡ (record {
        budget = consumed tools costs config provider actual s.budget;
        provider_state = (provider.suggest s.provider_state request).next;
      })
      → Spent b (count s.provider_state) t
  one_call b s t actual counts has allowed after =
      let (b', taken, one) = consumed-calls actual b in
      let below : b.calls < config.max_live_calls = may_call-below b (rw has at allowed) in
      let moved : count t.provider_state ≡ suc (count s.provider_state) =
        ap (λ (u : ServiceState S). count u.provider_state) after
        ∙ counts s.provider_state request in
      record {
        budget = b';
        kept =
            ap (λ (u : ServiceState S). u.budget) after
            ∙ ap (consumed tools costs config provider actual) has
            ∙ taken;
        paid = omega arith;
        capped = λ h. omega arith;
      }

  no_call :
      (b : LiveBudget) (s t : ServiceState S)
      → s.budget ≡ some b
      → t ≡ s
      → Spent b (count s.provider_state) t
  no_call b s t has same = record {
    budget = b;
    kept = ap (λ (u : ServiceState S). u.budget) same ∙ has;
    paid = omega (arith, ap (λ (u : ServiceState S). count u.provider_state) same);
    capped = λ h. h;
  }

  pub Tries-Spent :
      (b : LiveBudget) (left attempt : ℕ) (last : Option SemanticReviewError) (s : ServiceState S)
      (out : Outcome S SemanticSuggestion)
      → Counts provider count
      → Translates provider
      → s.budget ≡ some b
      → Tries tools costs config provider request left attempt last s out
      → Spent b (count s.provider_state) out.after
  Tries-Spent b _ attempt last s out counts translates has (exhausted _ _ _ _ same) =
      no_call b s out.after has same
  Tries-Spent b _ attempt last s out counts translates has (refused_at _ _ _ _ _ _ _ _ same) =
      no_call b s out.after has same
  Tries-Spent b _ attempt last s out counts translates has
        (returned _ _ _ _ _ suggestion allowed _ _ after) =
      one_call b s out.after suggestion.actual_provider_cost_usd counts has allowed after
  Tries-Spent b _ attempt last s out counts translates has (failed _ _ _ _ _ _ allowed _ _ after) =
      one_call b s out.after none counts has allowed after
  Tries-Spent b _ attempt last s out counts translates has
        (retried left _ _ _ _ e allowed _ _ _ later) =
      let next : ServiceState S = unpaid_at tools costs config provider request s in
      let first : Spent b (count s.provider_state) next =
        one_call b s next none counts has allowed refl in
      let rest : Spent first.budget (count next.provider_state) out.after =
        Tries-Spent first.budget left (attempt + 1) (some e) next out counts translates first.kept
          later in
      let paid_first = first.paid in
      let paid_rest = rest.paid in
      record {
        budget = rest.budget;
        kept = rest.kept;
        paid = omega arith;
        capped = λ h. rest.capped (first.capped h);
      }
  Tries-Spent b _ attempt last s out counts translates has
        (escaped _ _ _ _ _ raised _ answered outside _ _) =
      absurd (
        foreign_untranslated raised outside
          (subst IsTranslated answered (translates s.provider_state request)))
