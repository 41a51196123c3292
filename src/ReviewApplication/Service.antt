-- ===== src/ReviewApplication/Service.antt =====
-- review_application/service.py: `ReviewQueueService.resolve_case`, which lets the workflow decide on
-- the stored queue and writes what it returned. The unit of work is one transaction: an exception
-- leaves the store as it was. The repository is the one of SQLite; the reading of a configuration
-- file is an argument.
pub mod Calls
pub mod Reload
pub mod Validity
pub mod Written
pub mod Refinement
pub mod Runs
pub mod Isolation
use ai_data_quality_platform.Base.{
  ℕ, String, Bool, true, not, Option, none, some, List, [], ◌∷◌, ◌&&◌, ◌==◌, if◌then◌else◌, nat_eq,
  Result, ok, err, ◌>>=◌, ◌>>◌, raise_if, or_raise, filter, map,
}
use ai_data_quality_platform.Base.Assoc.{Dict, lookup, insert}
use ai_data_quality_platform.Base.Float.{Float}
use ai_data_quality_platform.EntityResolution.Models.{
  MatchDecisionType, auto_match, EntityRecord, RecordPair, ordered, PairComparison, MatchDecision,
  ResolutionResult, EntityResolutionConfig,
}
use ai_data_quality_platform.EntityResolution.Conflicts.{TextTools}
use ai_data_quality_platform.HumanReview.Models.{
  HumanReviewDecision, ReviewAuditEntry, ReviewCase, ReviewWorkflowState, case_by_id,
}
use ai_data_quality_platform.HumanReview.Errors.{case_not_found}
use ai_data_quality_platform.HumanReview.Workflow.{ReviewContext, resolve_case as resolve}
use ai_data_quality_platform.ReviewApplication.Errors.{
  ReviewApplicationError, human_review, from_workflow, review_event_integrity, review_conflict,
  authorization_config,
}
use ai_data_quality_platform.ReviewApplication.Models.{
  event_type_eq, PersistedCase, ReviewEvent, is_resolution, is_some, from_audit_entry,
}
use ai_data_quality_platform.ReviewApplication.Bundle.{
  Snapshot, WorkflowBundle, to_workflow_state, records_by_id,
}
use ai_data_quality_platform.ReviewPersistence.Rows.{StorageTools}
use ai_data_quality_platform.ReviewPersistence.Tables.{ReviewStore}
use ai_data_quality_platform.ReviewPersistence.Repository.{
  fetchone, load_workflow_bundle, apply_resolution, list_events,
}

pub record ReviewResolutionResult : Type 0 where
  pub persisted_case : PersistedCase
  pub audit_entry : ReviewAuditEntry
  pub event : ReviewEvent
  pub workflow_state : ReviewWorkflowState

abbrev one_point_zero : Float
one_point_zero = record { negative = Bool.false; magnitude = 0x3ff0000000000000 }

rebuilt_decision : String × String → MatchDecision
unfolding ordered
rebuilt_decision ids =
    let pair : RecordPair = ordered ids.0 ids.1 in
    record {
      pair = pair;
      comparison = record {
        pair = pair;
        candidate_reasons = [];
        evidence = [];
        conflicts = [];
        score = one_point_zero;
      };
      decision = auto_match;
      reason = "Persisted AUTO_MATCH snapshot from review generation.";
    }

-- `rebuild_resolution_from_snapshot` of human_review/reporting.py
unfoldable pub rebuild_resolution_from_snapshot : Snapshot → ResolutionResult
unfolding rebuilt_decision
rebuild_resolution_from_snapshot snapshot = record {
  decisions = map rebuilt_decision snapshot.auto_match_pairs;
  review_queue = [];
}

-- `_locate`
unfoldable pub locate : WorkflowBundle → String → Result ReviewApplicationError PersistedCase
unfolding fetchone
locate bundle case_id =
    or_raise
      (fetchone (λ (p : PersistedCase). p.case.review_case_id == case_id) bundle.persisted_cases)
      (human_review case_not_found)

-- `_assert_not_stale`
unfoldable pub assert_not_stale : PersistedCase → ℕ → Result ReviewApplicationError (Unit {0})
assert_not_stale persisted version =
    raise_if (not (nat_eq persisted.version version)) review_conflict

-- The last element of a list, `xs[-1]`.
unfoldable pub last {ℓ} : {A : Type ℓ} → List A → Option A
last [] = none
last (x ∷ []) = some x
last (x ∷ y ∷ ys) = last (y ∷ ys)

-- `_appended_audit_entry`
unfoldable pub appended_audit_entry :
    ReviewWorkflowState → String → Result ReviewApplicationError ReviewAuditEntry
unfolding last
appended_audit_entry state case_id = do
  entry ← or_raise (last state.audit_trail) review_event_integrity
  raise_if (not (entry.review_case_id == case_id)) review_event_integrity
  ok entry

-- What is cached, then what the loader reads; a file that cannot be read raises.
config_of :
    Dict EntityResolutionConfig
    → (String → Option EntityResolutionConfig)
    → String
    → Result ReviewApplicationError EntityResolutionConfig
unfolding lookup
config_of cached load path = elim (lookup path cached) [
  | some config ↦ ok config
  | none ↦ or_raise (load path) authorization_config
]

-- `_entity_resolution_config`
unfoldable pub entity_resolution_config :
    Dict EntityResolutionConfig
    → (String → Option EntityResolutionConfig)
    → Option String
    → Result ReviewApplicationError (Option EntityResolutionConfig)
unfolding config_of
entity_resolution_config cached load none = ok none
entity_resolution_config cached load (some path) =
    if path == "" then ok none else (config_of cached load path >>= λ config. ok (some config))

-- `_authorization_context`: only a MATCH needs one.
unfoldable pub authorization_context :
    Dict EntityResolutionConfig
    → (String → Option EntityResolutionConfig)
    → WorkflowBundle
    → HumanReviewDecision
    → Result ReviewApplicationError ReviewContext
unfolding entity_resolution_config rebuild_resolution_from_snapshot records_by_id
authorization_context cached load bundle HumanReviewDecision.match =
    entity_resolution_config cached load bundle.entity_resolution_config_path >>= λ config.
    ok (record {
      resolution = some (rebuild_resolution_from_snapshot bundle.resolution_snapshot);
      records_by_id = some (records_by_id bundle);
      entity_resolution_config = config;
    })
authorization_context cached load bundle _ =
    ok (record { resolution = none; records_by_id = none; entity_resolution_config = none })

abbrev equal_sequence : Option ℕ → Option ℕ → Bool
equal_sequence none none = true
equal_sequence (some m) (some n) = nat_eq m n
equal_sequence _ _ = Bool.false

-- The events that record the same decision as the one written.
matching_events : ReviewEvent → List ReviewEvent → List ReviewEvent
matching_events written events =
    filter
      (λ (e : ReviewEvent).
        is_resolution e
        && equal_sequence e.resolution_sequence written.resolution_sequence
        && event_type_eq e.event_type written.event_type)
      events

-- Exactly one, with its id.
only_event : List ReviewEvent → Result ReviewApplicationError ReviewEvent
only_event (e ∷ []) = raise_if (not (is_some e.event_id)) review_event_integrity >> ok e
only_event _ = err review_event_integrity

module _ (tools : StorageTools) (queue : String) where
  -- `_require_persisted_resolution_event`
  unfoldable pub require_persisted_event :
      String → ReviewEvent → ReviewStore → Result ReviewApplicationError ReviewEvent
  unfolding list_events matching_events only_event
  require_persisted_event case_id written store =
      list_events tools queue case_id store >>= λ events.
      only_event (matching_events written events)

module _ (texts : TextTools) (cached : Dict EntityResolutionConfig)
    (load : String → Option EntityResolutionConfig) where
  -- `_resolve_through_domain`
  unfoldable pub resolve_through_domain :
      WorkflowBundle
      → String
      → HumanReviewDecision
      → Option String
      → Result ReviewApplicationError ReviewWorkflowState
  unfolding authorization_context to_workflow_state resolve
  resolve_through_domain bundle case_id decision reviewer = do
    context ← authorization_context cached load bundle decision
    from_workflow (resolve texts (to_workflow_state bundle) case_id decision reviewer context)

module _ (tools : StorageTools) (queue : String) where
  -- What `resolve_case` does with the state that the workflow returned.
  unfoldable pub write_resolution :
      String
      → ℕ
      → String
      → ReviewStore
      → ReviewWorkflowState
      → Result ReviewApplicationError (ReviewResolutionResult × ReviewStore)
  unfolding appended_audit_entry case_by_id from_audit_entry apply_resolution
      require_persisted_event
  write_resolution case_id version now store state = do
    entry ← appended_audit_entry state case_id
    updated ← or_raise (case_by_id state case_id) review_event_integrity
    event ← from_audit_entry tools.strip entry now
    applied ← apply_resolution tools queue updated version event now store
    durable ← require_persisted_event tools queue case_id event applied.1
    ok (
      record {
        persisted_case = applied.0;
        audit_entry = entry;
        event = durable;
        workflow_state = state;
      },
      applied.1,
    )

module _ (texts : TextTools) (tools : StorageTools) (queue : String)
    (cached : Dict EntityResolutionConfig) (load : String → Option EntityResolutionConfig) where
  -- `resolve_case`; `now` is what the clock gives.
  unfoldable pub resolve_case :
      String
      → HumanReviewDecision
      → Option String
      → ℕ
      → String
      → ReviewStore
      → Result ReviewApplicationError (ReviewResolutionResult × ReviewStore)
  unfolding load_workflow_bundle locate assert_not_stale resolve_through_domain write_resolution
  resolve_case case_id decision reviewer version now store = do
    bundle ← load_workflow_bundle tools queue store
    persisted ← locate bundle case_id
    assert_not_stale persisted version
    state ← resolve_through_domain texts cached load bundle case_id decision reviewer
    write_resolution tools queue case_id version now store state
