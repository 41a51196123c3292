-- ===== src/SemanticReview/Policy/Eligible.antt =====
-- What an eligible case went through.
use ai_data_quality_platform.Base.{
  ◌∙◌, String, Bool, true, false, not, Option, none, some, ◌&&◌, ltb, if◌then◌else◌, Result, ok,
  err, ◌≡◌, refl, sym, inl, inr, arith, Bool-cases,
}
use ai_data_quality_platform.Base.Assoc.{Dict}
use ai_data_quality_platform.EntityResolution.Models.{
  MatchDecisionType, EntityRecord, EntityResolutionConfig, ResolutionResult,
}
use ai_data_quality_platform.EntityResolution.Conflicts.{TextTools}
use ai_data_quality_platform.HumanReview.Models.{
  ReviewStatus, status_eq, ReviewCase, ReviewResolution, ReviewWorkflowState, has_resolution,
}
use ai_data_quality_platform.HumanReview.Errors.{
  HumanReviewError, case_not_found, invalid_transition, authorization, contradiction,
  authorization_context, type_error, fault,
}
use ai_data_quality_platform.HumanReview.Authorization.{assert_human_match_authorization_boundary}
use ai_data_quality_platform.SemanticReview.Models.{
  SemanticSkipReason, Raised, semantic, human_review, key_or_value_error, foreign,
  SemanticReviewRequest, SemanticReviewConfig, SemanticRoutingDecision,
}
use ai_data_quality_platform.SemanticReview.Request.{
  PromptTools, estimate_token_count, is_review, build_semantic_review_request,
}
use ai_data_quality_platform.SemanticReview.Policy.{
  RoutingContext, has_evidence, case_skip_reason, is_too_large, check_boundary, check_request,
  after_boundary, evaluate_routing, skip,
}

-- A case that a provider may be asked about. The boundary check is made where the call gives the
-- outcome, the resolution and the configuration.
pub record IsEligible (texts : TextTools) (tools : PromptTools) (config : SemanticReviewConfig)
    (context : RoutingContext) (records : Dict EntityRecord) (require_enabled : Bool)
    (stamp : String) (c : ReviewCase) : Type 0 where
  pub enabled : require_enabled ≡ true → config.enabled ≡ true
  pub undecided : c.machine_decision ≡ MatchDecisionType.review
  pub waiting : c.status ≡ ReviewStatus.pending
  pub unresolved : c.resolution ≡ none
  pub evidence : has_evidence c ≡ true
  pub authorized :
      (outcome : ReviewWorkflowState) (resolution : ResolutionResult)
      (rules : EntityResolutionConfig)
      → context.outcome ≡ some outcome
      → context.resolution ≡ some resolution
      → context.entity_resolution_config ≡ some rules
      → assert_human_match_authorization_boundary texts c.pair outcome resolution records rules none
          none
        ≡ ok tt
  pub request : SemanticReviewRequest
  pub built : build_semantic_review_request tools c records config stamp ≡ ok request
  pub short :
      ltb config.max_input_tokens (estimate_token_count (tools.prompt_length request)) ≡ false

reviewed : (d : MatchDecisionType) → is_review d ≡ true → d ≡ MatchDecisionType.review
unfolding is_review
reviewed MatchDecisionType.review h = refl
reviewed MatchDecisionType.auto_match h = cc
reviewed MatchDecisionType.no_match h = cc

is_pending : (s : ReviewStatus) → status_eq s ReviewStatus.pending ≡ true → s ≡ ReviewStatus.pending
is_pending ReviewStatus.pending h = refl
is_pending ReviewStatus.match h = cc
is_pending ReviewStatus.no_match h = cc
is_pending ReviewStatus.deferred h = cc

-- The tests on the case passed.
case_passes :
    (c : ReviewCase)
    → case_skip_reason c ≡ none
    → (is_review c.machine_decision ≡ true)
      × (status_eq c.status ReviewStatus.pending ≡ true)
      × (has_resolution c ≡ false)
      × (has_evidence c ≡ true)
unfolding case_skip_reason
case_passes c h = (ground arith, ground arith, ground arith, ground arith)

no_resolution :
    (r : Option ReviewResolution) → elim r [ none ↦ false | some _ ↦ true ] ≡ false → r ≡ none
no_resolution none h = refl
no_resolution (some r) h = cc

module _ (texts : TextTools) (tools : PromptTools) where
  Eligible : Result Raised SemanticRoutingDecision → Type 0
  Eligible answer =
      (routing : SemanticRoutingDecision) × (answer ≡ ok routing) × (routing.eligible ≡ true)

  request_passes :
      (config : SemanticReviewConfig) (built : Result Raised SemanticReviewRequest)
      → Eligible (check_request texts tools config built)
      → (request : SemanticReviewRequest) × (built ≡ ok request)
        × (ltb config.max_input_tokens (estimate_token_count (tools.prompt_length request)) ≡ false)
  unfolding check_request Eligible
  request_passes config (err (semantic e)) (routing, answered, eligible) =
      elim (Bool-cases (is_too_large e.error_class)) [ inl large ↦ cc | inr other ↦ cc ]
  request_passes config (err key_or_value_error) (routing, answered, eligible) = cc
  request_passes config (err (human_review e)) (routing, answered, eligible) = cc
  request_passes config (err foreign) (routing, answered, eligible) = cc
  request_passes config (ok request) (routing, answered, eligible) =
      elim (Bool-cases
        (ltb config.max_input_tokens (estimate_token_count (tools.prompt_length request)))) [
          | inl large ↦ cc
          | inr fits ↦ (request, refl, fits)
        ]

  boundary_passes :
      (boundary : Result HumanReviewError (Unit {0})) (next : Result Raised SemanticRoutingDecision)
      → Eligible (after_boundary texts tools boundary next)
      → (boundary ≡ ok tt) × Eligible next
  unfolding after_boundary Eligible
  boundary_passes (err authorization) next (routing, answered, eligible) = cc
  boundary_passes (err contradiction) next (routing, answered, eligible) = cc
  boundary_passes (err case_not_found) next (routing, answered, eligible) = cc
  boundary_passes (err invalid_transition) next (routing, answered, eligible) = cc
  boundary_passes (err authorization_context) next (routing, answered, eligible) = cc
  boundary_passes (err type_error) next (routing, answered, eligible) = cc
  boundary_passes (err (fault f)) next (routing, answered, eligible) = cc
  boundary_passes (ok tt) next passed = (refl, passed)

  not_skipped :
      (b : Bool) (why : SemanticSkipReason) (next : Result Raised SemanticRoutingDecision)
      → Eligible (if b then skip why else next)
      → (b ≡ false) × Eligible next
  unfolding Eligible
  not_skipped true why next (routing, answered, eligible) = cc
  not_skipped false why next passed = (refl, passed)

  no_reason :
      (reason : Option SemanticSkipReason) (next : Result Raised SemanticRoutingDecision)
      → Eligible (elim reason [ some why ↦ skip why | none ↦ next ])
      → (reason ≡ none) × Eligible next
  unfolding Eligible
  no_reason (some why) next (routing, answered, eligible) = cc
  no_reason none next passed = (refl, passed)

  enabled_where : (required on : Bool) → (required && not on) ≡ false → required ≡ true → on ≡ true
  enabled_where true true h k = refl
  enabled_where true false h k = cc
  enabled_where false on h k = cc

  check_boundary-whole :
      (c : ReviewCase) (context : RoutingContext) (records : Dict EntityRecord)
      (outcome : ReviewWorkflowState) (resolution : ResolutionResult)
      (rules : EntityResolutionConfig)
      → context.outcome ≡ some outcome
      → context.resolution ≡ some resolution
      → context.entity_resolution_config ≡ some rules
      → check_boundary texts tools c context records
        ≡ assert_human_match_authorization_boundary texts c.pair outcome resolution records rules
            none none
  unfolding check_boundary
  check_boundary-whole c context records outcome resolution rules h k l =
      rw (check_boundary, h, k, l) refl

  -- Where the whole context is given, the check is that of the human review.
  boundary_checked :
      (c : ReviewCase) (context : RoutingContext) (records : Dict EntityRecord)
      → check_boundary texts tools c context records ≡ ok tt
      → (outcome : ReviewWorkflowState) (resolution : ResolutionResult)
        (rules : EntityResolutionConfig)
      → context.outcome ≡ some outcome
      → context.resolution ≡ some resolution
      → context.entity_resolution_config ≡ some rules
      → assert_human_match_authorization_boundary texts c.pair outcome resolution records rules none
          none
        ≡ ok tt
  boundary_checked c context records passed outcome resolution rules h k l =
      sym (check_boundary-whole c context records outcome resolution rules h k l) ∙ passed

  -- A case that is found eligible passed every test.
  pub evaluate_routing-IsEligible :
      (case : Option ReviewCase) (config : SemanticReviewConfig) (context : RoutingContext)
      (records : Dict EntityRecord) (require_enabled : Bool) (stamp : String)
      (routing : SemanticRoutingDecision)
      → evaluate_routing texts tools case config context records require_enabled stamp ≡ ok routing
      → routing.eligible ≡ true
      → (c : ReviewCase) × (case ≡ some c)
        × IsEligible texts tools config context records require_enabled stamp c
  unfolding evaluate_routing Eligible
  evaluate_routing-IsEligible none config context records require_enabled stamp routing answered
        eligible =
      let passed =
        not_skipped (require_enabled && not config.enabled) SemanticSkipReason.llm_disabled
          (skip SemanticSkipReason.case_not_found) (routing, answered, eligible) in
      cc
  evaluate_routing-IsEligible (some c) config context records require_enabled stamp routing answered
        eligible =
      let built = build_semantic_review_request tools c records config stamp in
      let checked = check_request texts tools config built in
      let bounded =
        after_boundary texts tools (check_boundary texts tools c context records) checked in
      let (on, tested) =
        not_skipped (require_enabled && not config.enabled) SemanticSkipReason.llm_disabled
          (elim (case_skip_reason c) [ some why ↦ skip why | none ↦ bounded ])
          (routing, answered, eligible) in
      let (passes, later) = no_reason (case_skip_reason c) bounded tested in
      let (authorized, checks) =
        boundary_passes (check_boundary texts tools c context records) checked later in
      let (request, made, fits) = request_passes config built checks in
      let (review, pending, open_case, evidence) = case_passes c passes in
      (
        c,
        refl,
        record {
          enabled = enabled_where require_enabled config.enabled on;
          undecided = reviewed c.machine_decision review;
          waiting = is_pending c.status pending;
          unresolved = no_resolution c.resolution open_case;
          evidence = evidence;
          authorized = boundary_checked c context records authorized;
          request = request;
          built = made;
          short = fits;
        },
      )
