-- ===== src/SemanticReview/Policy.antt =====
-- semantic_review/policy.py: which cases a provider may be asked about. The service always passes
-- the records.
pub mod Eligible
use ai_data_quality_platform.Base.{
  ℕ, String, Bool, true, false, not, Option, none, some, List, [], ◌∷◌, ◌&&◌, ◌||◌, ◌==◌, ltb,
  if◌then◌else◌, Result, ok, err, ◌>>=◌,
}
use ai_data_quality_platform.Base.Assoc.{Dict}
use ai_data_quality_platform.EntityResolution.Models.{
  EntityRecord, EntityResolutionConfig, ResolutionResult,
}
use ai_data_quality_platform.EntityResolution.Conflicts.{TextTools}
use ai_data_quality_platform.HumanReview.Models.{
  ReviewStatus, status_eq, ReviewCase, ReviewWorkflowState, has_resolution,
}
use ai_data_quality_platform.HumanReview.Errors.{HumanReviewError, authorization, contradiction}
use ai_data_quality_platform.HumanReview.Authorization.{assert_human_match_authorization_boundary}
use ai_data_quality_platform.SemanticReview.Models.{
  SemanticSkipReason, SemanticReviewError, ErrorClass, Raised, semantic, human_review,
  key_or_value_error, foreign, SemanticReviewRequest, SemanticReviewConfig, SemanticRoutingDecision,
}
use ai_data_quality_platform.SemanticReview.Request.{
  PromptTools, estimate_token_count, is_review, build_semantic_review_request,
}

abbrev pub skip : SemanticSkipReason → Result Raised SemanticRoutingDecision
skip why = ok (record { eligible = false; reason = some why })

abbrev pub eligible_case : Result Raised SemanticRoutingDecision
eligible_case = ok (record { eligible = true; reason = none })

lacks_items : {A : Type 0} → List A → Bool
lacks_items [] = true
lacks_items (x ∷ xs) = false

-- `has_evidence`
unfoldable pub has_evidence : ReviewCase → Bool
unfolding lacks_items
has_evidence c =
    not (lacks_items c.supporting_evidence)
    || not (lacks_items c.conflicting_evidence)
    || not (lacks_items c.missing_evidence_notes)
    || not (c.machine_reason == "")

is_resolved_status : ReviewStatus → Bool
is_resolved_status ReviewStatus.match = true
is_resolved_status ReviewStatus.no_match = true
is_resolved_status _ = false

-- The tests on the case alone: the reason to skip it, if there is one.
unfoldable pub case_skip_reason : ReviewCase → Option SemanticSkipReason
unfolding is_review is_resolved_status has_evidence
case_skip_reason c =
    if not (is_review c.machine_decision)
    then some SemanticSkipReason.not_review_decision
    else if status_eq c.status ReviewStatus.deferred
    then some SemanticSkipReason.case_terminal
    else if has_resolution c || is_resolved_status c.status
    then some SemanticSkipReason.case_resolved
    else if not (status_eq c.status ReviewStatus.pending)
    then some SemanticSkipReason.case_terminal
    else if not (has_evidence c)
    then some SemanticSkipReason.missing_evidence
    else none

is_too_large : ErrorClass → Bool
is_too_large ErrorClass.input_too_large = true
is_too_large _ = false

-- What a caller passes with the case; each part may be None.
pub record RoutingContext : Type 0 where
  pub outcome : Option ReviewWorkflowState
  pub resolution : Option ResolutionResult
  pub entity_resolution_config : Option EntityResolutionConfig

module _ (texts : TextTools) (tools : PromptTools) where
  -- The boundary check, where the whole context is given.
  unfoldable pub check_boundary :
      ReviewCase → RoutingContext → Dict EntityRecord → Result HumanReviewError (Unit {0})
  unfolding assert_human_match_authorization_boundary
  check_boundary c context records = elim (context.outcome) [
    | none ↦ ok tt
    | some outcome ↦ elim (context.resolution) [
      | none ↦ ok tt
      | some resolution ↦ elim (context.entity_resolution_config) [
        | none ↦ ok tt
        | some config ↦
            assert_human_match_authorization_boundary texts c.pair outcome resolution records config
              none none
      ]
    ]
  ]

  -- The two tests after the request was built, or the reason why it cannot be.
  unfoldable pub check_request :
      SemanticReviewConfig
      → Result Raised SemanticReviewRequest
      → Result Raised SemanticRoutingDecision
  unfolding estimate_token_count is_too_large
  check_request config (err (semantic e)) =
      if is_too_large e.error_class
      then skip SemanticSkipReason.input_too_large
      else err (semantic e)
  check_request config (err key_or_value_error) = skip SemanticSkipReason.unsafe_or_ineligible_case
  check_request config (err (human_review e)) = err (human_review e)
  check_request config (err foreign) = err foreign
  check_request config (ok request) =
      if ltb config.max_input_tokens (estimate_token_count (tools.prompt_length request))
      then skip SemanticSkipReason.input_too_large
      else eligible_case

  -- The boundary check and what follows it: two classes of its errors are answers.
  unfoldable pub after_boundary :
      Result HumanReviewError (Unit {0})
      → Result Raised SemanticRoutingDecision
      → Result Raised SemanticRoutingDecision
  after_boundary (err authorization) next = skip SemanticSkipReason.authorization_blocked
  after_boundary (err contradiction) next = skip SemanticSkipReason.authorization_blocked
  after_boundary (err e) next = err (human_review e)
  after_boundary (ok passed) next = next

  -- `evaluate_routing`, with the stamp that the built request takes from the clock.
  unfoldable pub evaluate_routing :
      Option ReviewCase
      → SemanticReviewConfig
      → RoutingContext
      → Dict EntityRecord
      → Bool
      → String
      → Result Raised SemanticRoutingDecision
  unfolding case_skip_reason check_boundary after_boundary check_request
  evaluate_routing case config context records require_enabled stamp =
      if require_enabled && not config.enabled
      then skip SemanticSkipReason.llm_disabled
      else elim case [
        | none ↦ skip SemanticSkipReason.case_not_found
        | some c ↦ elim (case_skip_reason c) [
          | some why ↦ skip why
          | none ↦
              after_boundary (check_boundary c context records)
                (check_request config (build_semantic_review_request tools c records config stamp))
        ]
      ]
