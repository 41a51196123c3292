-- ===== src/SemanticReview/Service/Answers.antt =====
-- What a call of `suggest_for_case` answers.
use ai_data_quality_platform.Base.{
  ◌+◌, Option, none, some, Result, ok, err, ◌≡◌, ◌≢◌, ap, sym, subst, ◌∙◌, ◌⊎◌, inl, inr, arith,
  if-elim, returned-bind, ok-injective, some-injective,
}
use ai_data_quality_platform.HumanReview.Models.{ReviewCase}
use ai_data_quality_platform.SemanticReview.Models.{
  SemanticReviewError, SemanticReviewRequest, SemanticSuggestion, SemanticRoutingDecision,
}
use ai_data_quality_platform.SemanticReview.Request.Identity.{
  IsAbout, build_semantic_review_request-IsAbout,
}
use ai_data_quality_platform.SemanticReview.Policy.Eligible.{IsEligible}
use ai_data_quality_platform.SemanticReview.Budget.{LiveBudget}
use ai_data_quality_platform.SemanticReview.Attempts.{ServiceState, Outcome, raised}
use ai_data_quality_platform.SemanticReview.Attempts.Tries.{suggest_loop-Tries}
use ai_data_quality_platform.SemanticReview.Attempts.Endings.{
  NeverReturns, FailsClosed, Tries-FailsClosed,
}
use ai_data_quality_platform.SemanticReview.Service.{
  SuggestCall, SemanticReviewService, Suggested, requires_enabled, opened_budget, attempts_with,
  live_attempts, attempted, suggest_for_case,
}
use ai_data_quality_platform.SemanticReview.Service.Cases.{Suggests, suggest_for_case-cases}

module _ {S : Type 0} (service : SemanticReviewService S) where
  -- Where a call of the service changes anything or returns a suggestion, the case was given, it is
  -- a pending, unresolved REVIEW case with evidence, it passes the boundary check of the human review
  -- where the call gives the outcome, the resolution and the configuration, its request can be
  -- built and is within the input cap, and assistance is enabled where the service requires it.
  pub suggest_for_case-IsEligible :
      (call : SuggestCall) (s : ServiceState S)
      → ((suggest_for_case service call s).after ≢ s)
        ⊎ Suggests (suggest_for_case service call s).answer
      → (c : ReviewCase) × (call.case ≡ some c)
        × IsEligible service.texts service.tools service.config call.context call.records_by_id
            (requires_enabled service)
            call.routing_stamp
            c
  suggest_for_case-IsEligible call s moved = elim (suggest_for_case-cases service call s) [
    | inl skipped ↦ elim moved [
      | inl changed ↦ absurd (changed skipped.same)
      | inr suggests ↦ absurd (skipped.silent suggests)
    ]
    | inr asked ↦ (asked.case, asked.given, asked.eligible)
  ]

  -- What an answer of the attempts is, where the provider never returns.
  Closed : SemanticReviewRequest → Outcome S SemanticSuggestion → Type 0
  Closed request out =
      (suggestion : SemanticSuggestion)
      → out.answer ≡ ok suggestion
      → FailsClosed service.tools service.costs service.config service.provider request
          out.after.provider_state suggestion

  attempts_with-Closed :
      (request : SemanticReviewRequest) (budget : Option LiveBudget) (before : S)
      → NeverReturns service.provider
      → Closed request (attempts_with service request budget before)
  unfolding attempts_with Closed
  attempts_with-Closed request budget before never suggestion given =
      Tries-FailsClosed service.tools service.costs service.config service.provider request
        (service.config.max_retries + 1) 1 none
        (record { budget = budget; provider_state = before }) _ suggestion never (omega arith)
        (omega arith) tt
        (suggest_loop-Tries service.tools service.costs service.config service.provider request
          (service.config.max_retries + 1) 1 none
          (record { budget = budget; provider_state = before }))
        given

  live_attempts-Closed :
      (request : SemanticReviewRequest) (s : ServiceState S)
      (opened : Result SemanticReviewError LiveBudget)
      → NeverReturns service.provider
      → Closed request (live_attempts service request s opened)
  unfolding live_attempts Closed raised
  live_attempts-Closed request s (err e) never suggestion given = cc
  live_attempts-Closed request s (ok budget) never suggestion given =
      attempts_with-Closed request (some budget) s.provider_state never suggestion given

  attempted-Closed :
      (request : SemanticReviewRequest) (s : ServiceState S)
      → NeverReturns service.provider
      → Closed request (attempted service request s)
  unfolding attempted
  attempted-Closed request s never =
      if-elim service.provider.live (Closed request)
        (λ live. live_attempts-Closed request s (opened_budget service s.budget) never)
        (λ offline. unfold Closed in attempts_with-Closed request none s.provider_state never)

  -- Where the provider never returns: a suggestion that is returned is PROVIDER_FAILURE, about the case
  -- that was given and its pair. Its code, its one reason and its explanation are those of the error
  -- that the last call of the provider raised, and it counts at most one attempt more than the
  -- retries.
  pub suggest_for_case-FailsClosed :
      (call : SuggestCall) (s : ServiceState S) (routing : SemanticRoutingDecision)
      (suggestion : SemanticSuggestion)
      → NeverReturns service.provider
      → (suggest_for_case service call s).answer ≡ ok (routing, some suggestion)
      → (c : ReviewCase) × (call.case ≡ some c)
        × (request : SemanticReviewRequest) × IsAbout c request
        × FailsClosed service.tools service.costs service.config service.provider request
            (suggest_for_case service call s).after.provider_state
            suggestion
  unfolding Suggests Closed
  suggest_for_case-FailsClosed call s routing suggestion never given =
      elim (suggest_for_case-cases service call s) [
        | inl skipped ↦ absurd (skipped.silent (routing, suggestion, given))
        | inr asked ↦
            let (made, pair, tried) =
              returned-bind (attempted service asked.request s).answer _
                (sym asked.answered ∙ given) in
            let same : made ≡ suggestion = some-injective (
              ap (λ (p : Suggested). p.1)
                (ok-injective {a = (asked.routing, some made)} {b = (routing, some suggestion)}
                  pair)) in
            let closed = attempted-Closed asked.request s never made tried in
            (
              asked.case,
              asked.given,
              asked.request,
              build_semantic_review_request-IsAbout service.tools asked.case call.records_by_id
                  service.config call.request_stamp asked.request asked.built,
              subst
                  (FailsClosed service.tools service.costs service.config service.provider
                    asked.request (suggest_for_case service call s).after.provider_state)
                  same
                  (subst
                    (λ (t : ServiceState S).
                      FailsClosed service.tools service.costs service.config service.provider
                        asked.request t.provider_state made)
                    (sym asked.after) closed),
            )
      ]
