-- ===== src/SemanticReview/Service/Cases.antt =====
-- The ways through a call of `suggest_for_case`.
use ai_data_quality_platform.Base.{
  true, Option, none, some, Result, ok, err, ◌>>=◌, ◌≡◌, refl, sym, ◌∙◌, ◌⊎◌, inl, inr,
  Result-cases, subst, some-injective, if-elim,
}
use ai_data_quality_platform.HumanReview.Models.{ReviewCase}
use ai_data_quality_platform.SemanticReview.Models.{
  Raised, SemanticSuggestion, SemanticReviewRequest, SemanticRoutingDecision,
}
use ai_data_quality_platform.SemanticReview.Request.{build_semantic_review_request}
use ai_data_quality_platform.SemanticReview.Policy.Eligible.{
  IsEligible, evaluate_routing-IsEligible,
}
use ai_data_quality_platform.SemanticReview.Attempts.{ServiceState, Outcome}
use ai_data_quality_platform.SemanticReview.Service.{
  SuggestCall, SemanticReviewService, Suggested, requires_enabled, routing_of, attempted,
  suggest_on, suggest_for_case, after_routing,
}

-- A suggestion was returned.
unfoldable pub Suggests : Result Raised Suggested → Type 0
Suggests answer =
    (routing : SemanticRoutingDecision) × (suggestion : SemanticSuggestion) × (answer
      ≡ ok (routing, some suggestion))

module _ {S : Type 0} (service : SemanticReviewService S) where
  -- The call did not come as far as the provider.
  pub record Skipped (s : ServiceState S) (out : Outcome S Suggested) : Type 0 where
    pub same : out.after ≡ s
    pub silent : Suggests out.answer → ⊥

  -- The call asked the provider about an eligible case.
  pub record Asked (call : SuggestCall) (s : ServiceState S) (out : Outcome S Suggested)
      : Type 0 where
    pub case : ReviewCase
    pub given : call.case ≡ some case
    pub eligible :
        IsEligible service.texts service.tools service.config call.context call.records_by_id
          (requires_enabled service)
          call.routing_stamp
          case
    pub routing : SemanticRoutingDecision
    pub request : SemanticReviewRequest
    pub built :
        build_semantic_review_request service.tools case call.records_by_id service.config
          call.request_stamp
        ≡ ok request
    pub after : out.after ≡ (attempted service request s).after
    pub answered :
        out.answer
        ≡ ((attempted service request s).answer >>= λ suggestion. ok (routing, some suggestion))

  skipped :
      (s : ServiceState S) (routing : SemanticRoutingDecision)
      → Skipped s (record { answer = ok (routing, none); after = s })
  unfolding Suggests
  skipped s routing = record { same = refl; silent = λ given. cc (given.2) }

  failed : (s : ServiceState S) (e : Raised) → Skipped s (record { answer = err e; after = s })
  unfolding Suggests
  failed s e = record { same = refl; silent = λ given. cc (given.2) }

  suggest_on-cases :
      (c : ReviewCase) (routing : SemanticRoutingDecision) (call : SuggestCall) (s : ServiceState S)
      → call.case ≡ some c
      → IsEligible service.texts service.tools service.config call.context call.records_by_id
          (requires_enabled service)
          call.routing_stamp
          c
      → Skipped s (suggest_on service c routing call s)
        ⊎ Asked call s (suggest_on service c routing call s)
  unfolding suggest_on
  suggest_on-cases c routing call s given eligible =
      elim (Result-cases (
        build_semantic_review_request service.tools c call.records_by_id service.config
          call.request_stamp)) [
            | inl (e, unbuilt) ↦ rw (unbuilt, suggest_on) (inl (failed s e))
            | inr (request, built) ↦
                rw (built, suggest_on)
                  (inr (record {
                    case = c;
                    given = given;
                    eligible = eligible;
                    routing = routing;
                    request = request;
                    built = built;
                    after = refl;
                    answered = refl;
                  }))
          ]

  routed_case :
      (c : ReviewCase) (routing : SemanticRoutingDecision) (call : SuggestCall)
      → call.case ≡ some c
      → routing_of service call ≡ ok routing
      → routing.eligible ≡ true
      → IsEligible service.texts service.tools service.config call.context call.records_by_id
          (requires_enabled service)
          call.routing_stamp
          c
  unfolding routing_of
  routed_case c routing call given routed eligible =
      let (c', given', is_eligible) =
        evaluate_routing-IsEligible service.texts service.tools call.case service.config
          call.context call.records_by_id (requires_enabled service) call.routing_stamp routing
          routed eligible in
      subst
        (IsEligible service.texts service.tools service.config call.context call.records_by_id
          (requires_enabled service) call.routing_stamp)
        (some-injective (sym given' ∙ given)) is_eligible

  after_routing-cases :
      (case : Option ReviewCase) (routing : SemanticRoutingDecision) (call : SuggestCall)
      (s : ServiceState S)
      → call.case ≡ case
      → routing_of service call ≡ ok routing
      → Skipped s (after_routing service case routing call s)
        ⊎ Asked call s (after_routing service case routing call s)
  unfolding after_routing
  after_routing-cases none routing call s given routed = inl (skipped s routing)
  after_routing-cases (some c) routing call s given routed =
      if-elim routing.eligible (λ out. Skipped s out ⊎ Asked call s out)
        (λ eligible.
          suggest_on-cases c routing call s given
            (routed_case c routing call given routed eligible))
        (λ left_out. inl (skipped s routing))

  -- A call leaves everything as it was and returns no suggestion, or it asks about an eligible case.
  pub suggest_for_case-cases :
      (call : SuggestCall) (s : ServiceState S)
      → Skipped s (suggest_for_case service call s) ⊎ Asked call s (suggest_for_case service call s)
  unfolding suggest_for_case
  suggest_for_case-cases call s = elim (Result-cases (routing_of service call)) [
    | inl (e, unrouted) ↦ rw (suggest_for_case, unrouted) (inl (failed s e))
    | inr (routing, routed) ↦
        rw (suggest_for_case, routed) (after_routing-cases call.case routing call s refl routed)
  ]
