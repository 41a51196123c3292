-- ===== src/SemanticReview/Service/Progress.antt =====
-- An eligible case gets its suggestion.
use ai_data_quality_platform.Base.{
  ◌+◌, leb, true, false, Option, none, some, ok, err, ◌>>=◌, ◌≡◌, refl, ap, ◌∙◌, ◌⊎◌, inl, inr,
  arith, if-elim, returns-bind, Bool, raise_if, ◌>>◌, some-injective, if_true,
}
use ai_data_quality_platform.Base.Float.{float_lt}
use ai_data_quality_platform.HumanReview.Models.{ReviewCase}
use ai_data_quality_platform.SemanticReview.Models.{
  ErrorClass, SemanticReviewError, semantic, SemanticReviewRequest, SemanticSuggestion,
  SemanticRoutingDecision, ModelPricing,
}
use ai_data_quality_platform.SemanticReview.Request.{build_semantic_review_request}
use ai_data_quality_platform.SemanticReview.Budget.{
  LiveBudget, require_model_rates, live_budget, conservative_call_cost_usd, assert_can_call,
  budget_error,
}
use ai_data_quality_platform.SemanticReview.Attempts.{ServiceState, Outcome, may_call}
use ai_data_quality_platform.SemanticReview.Attempts.Tries.{suggest_loop-Tries}
use ai_data_quality_platform.SemanticReview.Attempts.Counting.{Translates}
use ai_data_quality_platform.SemanticReview.Attempts.Endings.{Tries-ends}
use ai_data_quality_platform.SemanticReview.Service.{
  SuggestCall, SemanticReviewService, Suggested, opened_budget, routing_of, attempts_with,
  live_attempts, attempted, suggest_on, after_routing, suggest_for_case,
}

raised_by :
    (a b : Bool) (e refusal : SemanticReviewError)
    → (raise_if a e >> raise_if b e) ≡ err refusal
    → refusal ≡ e
raised_by true b e refusal h = cc
raised_by false true e refusal h = cc
raised_by false false e refusal h = cc

module _ {S : Type 0} (service : SemanticReviewService S) where
  -- A suggestion, or the refusal of the budget of a live provider, before any call.
  Ends : S → Outcome S SemanticSuggestion → Type 0
  Ends before out =
      ((suggestion : SemanticSuggestion) × (out.answer ≡ ok suggestion))
      ⊎ ((refusal : SemanticReviewError) × (out.answer ≡ err (semantic refusal))
          × (refusal.error_class ≡ ErrorClass.budget)
          × (service.provider.live ≡ true)
          × (out.after.provider_state ≡ before))

  refusal_class :
      (b : LiveBudget) (refusal : SemanticReviewError)
      → assert_can_call service.costs service.config b ≡ err refusal
      → refusal.error_class ≡ ErrorClass.budget
  unfolding assert_can_call budget_error
  refusal_class b refusal h =
      ap (λ (e : SemanticReviewError). e.error_class)
        (raised_by (leb service.config.max_live_calls b.calls)
          (float_lt service.config.max_live_usd (service.costs.plus b.spent_usd b.reserved_usd))
          budget_error refusal h)

  attempts_with-Ends :
      (request : SemanticReviewRequest) (budget : LiveBudget) (before : S) (rates : ModelPricing)
      → require_model_rates service.config ≡ ok rates
      → Translates service.provider
      → service.provider.live ≡ true
      → Ends before (attempts_with service request (some budget) before)
  unfolding Ends attempts_with may_call
  attempts_with-Ends request budget before rates priced translates live =
      let start : ServiceState S = record { budget = some budget; provider_state = before } in
      elim (Tries-ends service.tools service.costs service.config service.provider request
        (service.config.max_retries + 1) 1 start _ rates priced translates (omega arith)
        (omega arith)
        (suggest_loop-Tries service.tools service.costs service.config service.provider request
          (service.config.max_retries + 1) 1 none start)) [
            | inl answered ↦ inl answered
            | inr (refusal, answered, stops, same) ↦ inr (
              refusal,
              answered,
              refusal_class budget refusal stops,
              live,
              ap (λ (t : ServiceState S). t.provider_state) same,
            )
          ]

  attempts_with-offline :
      (request : SemanticReviewRequest) (before : S) (rates : ModelPricing)
      → require_model_rates service.config ≡ ok rates
      → Translates service.provider
      → (suggestion : SemanticSuggestion) × ((attempts_with service request none before).answer
          ≡ ok suggestion)
  unfolding attempts_with may_call
  attempts_with-offline request before rates priced translates =
      let start : ServiceState S = record { budget = none; provider_state = before } in
      elim (Tries-ends service.tools service.costs service.config service.provider request
        (service.config.max_retries + 1) 1 start _ rates priced translates (omega arith)
        (omega arith)
        (suggest_loop-Tries service.tools service.costs service.config service.provider request
          (service.config.max_retries + 1) 1 none start)) [
            | inl answered ↦ answered
            | inr (refusal, answered, stops, same) ↦ cc
          ]

  opened_budget-opens :
      (stored : Option LiveBudget) (rates : ModelPricing)
      → require_model_rates service.config ≡ ok rates
      → (budget : LiveBudget) × (opened_budget service stored ≡ ok budget)
  unfolding opened_budget live_budget conservative_call_cost_usd
  opened_budget-opens none rates priced =
      returns-bind (conservative_call_cost_usd service.costs service.config) _
        (returns-bind (require_model_rates service.config) _ (rates, priced) (λ r. (_, refl)))
        (λ reserved. (_, refl))
  opened_budget-opens (some stored) rates priced = (stored, refl)

  live_attempts-Ends :
      (request : SemanticReviewRequest) (s : ServiceState S) (rates : ModelPricing)
      → require_model_rates service.config ≡ ok rates
      → Translates service.provider
      → service.provider.live ≡ true
      → Ends s.provider_state (live_attempts service request s (opened_budget service s.budget))
  unfolding live_attempts
  live_attempts-Ends request s rates priced translates live =
      let (budget, opened) = opened_budget-opens s.budget rates priced in
      rw (opened, live_attempts)
        (attempts_with-Ends request budget s.provider_state rates priced translates live)

  attempted-Ends :
      (request : SemanticReviewRequest) (s : ServiceState S) (rates : ModelPricing)
      → require_model_rates service.config ≡ ok rates
      → Translates service.provider
      → Ends s.provider_state (attempted service request s)
  unfolding attempted
  attempted-Ends request s rates priced translates =
      if-elim service.provider.live (Ends s.provider_state)
        (λ live. live_attempts-Ends request s rates priced translates live)
        (λ offline.
          unfold Ends in
          inl (attempts_with-offline request s.provider_state rates priced translates))

  -- An eligible case is asked about.
  after_routing-eligible :
      (case : Option ReviewCase) (c : ReviewCase) (routing : SemanticRoutingDecision)
      (call : SuggestCall) (s : ServiceState S)
      → case ≡ some c
      → routing.eligible ≡ true
      → after_routing service case routing call s ≡ suggest_on service c routing call s
  unfolding after_routing
  after_routing-eligible none c routing call s given eligible = cc
  after_routing-eligible (some c') c routing call s given eligible =
      if_true routing.eligible (suggest_on service c' routing call s) _ eligible
      ∙ ap (λ (d : ReviewCase). suggest_on service d routing call s) (some-injective given)

  suggest_for_case-routed :
      (call : SuggestCall) (s : ServiceState S) (routing : SemanticRoutingDecision)
      → routing_of service call ≡ ok routing
      → suggest_for_case service call s ≡ after_routing service call.case routing call s
  unfolding suggest_for_case
  suggest_for_case-routed call s routing routed = rw (suggest_for_case, routed) refl

  suggest_on-built :
      (c : ReviewCase) (routing : SemanticRoutingDecision) (call : SuggestCall) (s : ServiceState S)
      (request : SemanticReviewRequest)
      → build_semantic_review_request service.tools c call.records_by_id service.config
          call.request_stamp
        ≡ ok request
      → suggest_on service c routing call s ≡ (record {
        answer =
            (attempted service request s).answer >>= λ suggestion. ok (routing, some suggestion);
        after = (attempted service request s).after;
      })
  unfolding suggest_on
  suggest_on-built c routing call s request built = rw (suggest_on, built) refl

  -- What is made of the answer of the attempts.
  suggested :
      (routing : SemanticRoutingDecision) (before : S) (tried : Outcome S SemanticSuggestion)
      (out : Outcome S Suggested)
      → out ≡ (record {
        answer = tried.answer >>= λ suggestion. ok (routing, some suggestion);
        after = tried.after;
      })
      → Ends before tried
      → ((suggestion : SemanticSuggestion) × (out.answer ≡ ok (routing, some suggestion)))
        ⊎ ((refusal : SemanticReviewError) × (out.answer ≡ err (semantic refusal))
            × (refusal.error_class ≡ ErrorClass.budget)
            × (service.provider.live ≡ true)
            × (out.after.provider_state ≡ before))
  unfolding Ends
  suggested routing before tried out made (inl (suggestion, answered)) =
      inl (suggestion, ap (λ (o : Outcome S Suggested). o.answer) made ∙ rw answered refl)
  suggested routing before tried out made (inr (refusal, answered, class, live, same)) = inr (
    refusal,
    ap (λ (o : Outcome S Suggested). o.answer) made ∙ rw answered refl,
    class,
    live,
    ap (λ (o : Outcome S Suggested). o.after.provider_state) made ∙ same,
  )

  -- Where the model has a price and the provider turns every exception into an error of the module:
  -- a case that is found eligible and whose request can be built gets a suggestion, unless the
  -- provider is live and the budget refuses, and then the provider was not called.
  pub suggest_for_case-Ends :
      (call : SuggestCall) (s : ServiceState S) (c : ReviewCase) (routing : SemanticRoutingDecision)
      (request : SemanticReviewRequest) (rates : ModelPricing)
      → require_model_rates service.config ≡ ok rates
      → Translates service.provider
      → call.case ≡ some c
      → routing_of service call ≡ ok routing
      → routing.eligible ≡ true
      → build_semantic_review_request service.tools c call.records_by_id service.config
          call.request_stamp
        ≡ ok request
      → ((suggestion : SemanticSuggestion) × ((suggest_for_case service call s).answer
            ≡ ok (routing, some suggestion)))
        ⊎ ((refusal : SemanticReviewError) × ((suggest_for_case service call s).answer
              ≡ err (semantic refusal))
            × (refusal.error_class ≡ ErrorClass.budget)
            × (service.provider.live ≡ true)
            × ((suggest_for_case service call s).after.provider_state ≡ s.provider_state))
  suggest_for_case-Ends call s c routing request rates priced translates given routed eligible
        built =
      suggested routing s.provider_state (attempted service request s) _
        (suggest_for_case-routed call s routing routed
          ∙ after_routing-eligible call.case c routing call s given eligible
          ∙ suggest_on-built c routing call s request built)
        (attempted-Ends request s rates priced translates)
