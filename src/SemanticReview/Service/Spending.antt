-- ===== src/SemanticReview/Service/Spending.antt =====
-- How many calls of the provider one suggestion takes, and how many a whole run takes.
use ai_data_quality_platform.Base.{
  ℕ, ◌+◌, ◌≤◌, true, Option, none, some, ok, ◌≡◌, refl, ap, sym, inl, inr, arith, Result, err,
  if-elim, subst, returned-bind, ok-injective,
}
use ai_data_quality_platform.SemanticReview.Models.{
  SemanticReviewError, SemanticReviewRequest, SemanticSuggestion,
}
use ai_data_quality_platform.SemanticReview.Budget.{
  LiveBudget, live_budget, conservative_call_cost_usd,
}
use ai_data_quality_platform.SemanticReview.Attempts.{ServiceState, Outcome}
use ai_data_quality_platform.SemanticReview.Attempts.Tries.{suggest_loop-Tries}
use ai_data_quality_platform.SemanticReview.Attempts.Counting.{
  Counts, Translates, calls_of, Spent, Tries-count, Tries-Spent,
}
use ai_data_quality_platform.SemanticReview.Service.{
  SuggestCall, SemanticReviewService, opened_budget, attempts_with, live_attempts, attempted,
  suggest_for_case,
}
use ai_data_quality_platform.SemanticReview.Service.Cases.{suggest_for_case-cases}

module _ {S : Type 0} (service : SemanticReviewService S) where
  -- Calls of one service, one after the other.
  pub data Served : ServiceState S → ServiceState S → Type 0 where
    done : (s : ServiceState S) → Served s s
    then_serve :
        (s t u : ServiceState S) (call : SuggestCall)
        → (suggest_for_case service call s).after ≡ t
        → Served t u
        → Served s u

module _ {S : Type 0} (service : SemanticReviewService S) (count : S → ℕ) where
  attempts_with-count :
      (request : SemanticReviewRequest) (budget : Option LiveBudget) (before : S)
      → Counts service.provider count
      → count (attempts_with service request budget before).after.provider_state
        ≤ count before + (service.config.max_retries + 1)
  unfolding attempts_with
  attempts_with-count request budget before counts =
      Tries-count service.tools service.costs service.config service.provider request count
        (service.config.max_retries + 1) 1 none
        (record { budget = budget; provider_state = before }) _ counts
        (suggest_loop-Tries service.tools service.costs service.config service.provider request
          (service.config.max_retries + 1) 1 none
          (record { budget = budget; provider_state = before }))

  opened_budget-calls :
      (stored : Option LiveBudget) (budget : LiveBudget)
      → opened_budget service stored ≡ ok budget
      → budget.calls ≡ calls_of stored
  unfolding opened_budget live_budget
  opened_budget-calls none budget opened =
      let (reserved, made, priced) =
        returned-bind (conservative_call_cost_usd service.costs service.config) _ opened in
      ap (λ (b : LiveBudget). b.calls) (sym (ok-injective made))
  opened_budget-calls (some stored) budget opened =
      ap (λ (b : LiveBudget). b.calls) (sym (ok-injective opened))

  live_attempts-count :
      (request : SemanticReviewRequest) (s : ServiceState S)
      (opened : Result SemanticReviewError LiveBudget)
      → Counts service.provider count
      → count (live_attempts service request s opened).after.provider_state
        ≤ count s.provider_state + (service.config.max_retries + 1)
  unfolding live_attempts
  live_attempts-count request s (err e) counts = omega arith
  live_attempts-count request s (ok budget) counts =
      attempts_with-count request (some budget) s.provider_state counts

  attempted-count :
      (request : SemanticReviewRequest) (s : ServiceState S)
      → Counts service.provider count
      → count (attempted service request s).after.provider_state
        ≤ count s.provider_state + (service.config.max_retries + 1)
  unfolding attempted
  attempted-count request s counts =
      if-elim service.provider.live
        (λ (out : Outcome S SemanticSuggestion).
          count out.after.provider_state
          ≤ count s.provider_state + (service.config.max_retries + 1))
        (λ live. live_attempts-count request s (opened_budget service s.budget) counts)
        (λ offline. attempts_with-count request none s.provider_state counts)

  -- However the provider answers, and whatever the case: a suggestion takes at most one call of the
  -- provider more than the configured retries.
  pub suggest_for_case-count :
      (call : SuggestCall) (s : ServiceState S)
      → Counts service.provider count
      → count (suggest_for_case service call s).after.provider_state
        ≤ count s.provider_state + (service.config.max_retries + 1)
  suggest_for_case-count call s counts = elim (suggest_for_case-cases service call s) [
    | inl skipped ↦ omega (arith, ap (λ (t : ServiceState S). count t.provider_state) skipped.same)
    | inr asked ↦
        let tries = attempted-count asked.request s counts in
        omega (arith, ap (λ (t : ServiceState S). count t.provider_state) asked.after)
  ]

  -- A state whose budget paid for every call since another one, within the cap.
  abbrev Pays : ServiceState S → ServiceState S → Type 0
  Pays s t =
      (count t.provider_state + calls_of s.budget ≡ count s.provider_state + calls_of t.budget)
      × (calls_of t.budget ≤ service.config.max_live_calls)

  live_attempts-Pays :
      (request : SemanticReviewRequest) (s : ServiceState S)
      (opened : Result SemanticReviewError LiveBudget)
      → opened_budget service s.budget ≡ opened
      → Counts service.provider count
      → Translates service.provider
      → calls_of s.budget ≤ service.config.max_live_calls
      → Pays s (live_attempts service request s opened).after
  unfolding live_attempts
  live_attempts-Pays request s (err e) opens counts translates low = (refl, low)
  live_attempts-Pays request s (ok budget) opens counts translates low =
      let start : ServiceState S = record {
        budget = some budget;
        provider_state = s.provider_state;
      } in
      let spent : Spent service.tools service.costs service.config service.provider request count
          budget (count s.provider_state)
          (attempts_with service request (some budget) s.provider_state).after =
        unfold attempts_with in
        (Tries-Spent service.tools service.costs service.config service.provider request count
          budget (service.config.max_retries + 1) 1 none start _ counts translates refl
          (suggest_loop-Tries service.tools service.costs service.config service.provider request
            (service.config.max_retries + 1) 1 none start)) in
      let opening = opened_budget-calls s.budget budget opens in
      let calls = ap calls_of spent.kept in
      let paid = spent.paid in let capped = spent.capped (omega arith) in (omega arith, omega arith)

  attempted-Pays :
      (request : SemanticReviewRequest) (s : ServiceState S)
      → service.provider.live ≡ true
      → Counts service.provider count
      → Translates service.provider
      → calls_of s.budget ≤ service.config.max_live_calls
      → Pays s (attempted service request s).after
  unfolding attempted
  attempted-Pays request s live counts translates low =
      if-elim service.provider.live (λ (out : Outcome S SemanticSuggestion). Pays s out.after)
        (λ live'.
          live_attempts-Pays request s (opened_budget service s.budget) refl counts translates low)
        (λ offline. cc)

  suggest_for_case-Pays :
      (call : SuggestCall) (s : ServiceState S)
      → service.provider.live ≡ true
      → Counts service.provider count
      → Translates service.provider
      → calls_of s.budget ≤ service.config.max_live_calls
      → Pays s (suggest_for_case service call s).after
  suggest_for_case-Pays call s live counts translates low =
      elim (suggest_for_case-cases service call s) [
        | inl skipped ↦ subst (Pays s) (sym skipped.same) (refl, low)
        | inr asked ↦
            subst (Pays s) (sym asked.after)
              (attempted-Pays asked.request s live counts translates low)
      ]

  Served-Pays :
      (s t : ServiceState S)
      → service.provider.live ≡ true
      → Counts service.provider count
      → Translates service.provider
      → calls_of s.budget ≤ service.config.max_live_calls
      → Served service s t
      → Pays s t
  Served-Pays s t live counts translates low (done _) = (refl, low)
  Served-Pays s t live counts translates low (then_serve _ next _ call first rest) =
      let (paid, low') =
        subst (Pays s) first (suggest_for_case-Pays call s live counts translates low) in
      let (paid', low'') = Served-Pays next t live counts translates low' rest in
      (omega arith, low'')

  -- A live provider that turns every exception into an error of the module is called at most
  -- max_live_calls times by a service without a budget yet, however many cases it is asked about.
  pub Served-count :
      (s t : ServiceState S)
      → service.provider.live ≡ true
      → Counts service.provider count
      → Translates service.provider
      → s.budget ≡ none
      → Served service s t
      → count t.provider_state ≤ count s.provider_state + service.config.max_live_calls
  Served-count s t live counts translates fresh served =
      let start = ap calls_of fresh in
      let (paid, low) = Served-Pays s t live counts translates (omega arith) served in omega arith
