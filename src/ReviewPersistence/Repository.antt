-- ===== src/ReviewPersistence/Repository.antt =====
-- review_persistence/sqlite/review_repository.py: the class `SqliteReviewCaseRepository`, bound to one
-- queue. A transaction that raises leaves the store as it was, so that a method returns the new store
-- or the exception.
pub mod Loading
pub mod Selecting
pub mod Calls
pub mod Applying
pub mod Holding
pub mod Validity
use ai_data_quality_platform.Base.{
  ℕ, ◌+◌, String, Bool, true, false, not, Option, none, some, List, [], ◌∷◌, ◌++◌, ◌&&◌, ◌||◌, ◌==◌,
  if◌then◌else◌, nat_eq, Result, ok, err, ◌>>=◌, ◌>>◌, raise_if, or_raise, filter, any, all, map,
  contains, text_eq, length,
}
use ai_data_quality_platform.EntityResolution.Models.{EntityRecord}
use ai_data_quality_platform.HumanReview.Models.{
  ReviewStatus, status_eq, ReviewCase, ReviewWorkflowState,
}
use ai_data_quality_platform.HumanReview.Errors.{case_not_found}
use ai_data_quality_platform.ReviewApi.Tenancy.{Organization, OrganizationStatus, ReviewQueue}
use ai_data_quality_platform.ReviewApplication.Errors.{
  ReviewApplicationError, human_review, persisted_case_integrity, review_event_integrity,
  review_conflict, duplicate_case_registration, review_persistence, review_queue_not_found,
  workflow_context_missing, workflow_context_conflict, organization_not_active, storage_constraint,
}
use ai_data_quality_platform.ReviewApplication.Models.{
  event_type_eq, event_type_of, status_is_type, PersistedCase, ReviewEvent, is_resolution,
  initial_case, with_case,
}
use ai_data_quality_platform.ReviewApplication.Bundle.{Snapshot, WorkflowBundle, workflow_bundle}
use ai_data_quality_platform.ReviewApplication.History.{
  ReconstructedHistory, reconstruct_history, optional_text_eq, is_sequence,
}
use ai_data_quality_platform.ReviewPersistence.Rows.{
  StorageTools, CaseRow, EventRow, case_payload_json, case_to_row, row_to_persisted_case,
  row_to_review_event, event_to_row, database_schema_version,
}
use ai_data_quality_platform.ReviewPersistence.Tables.{
  ContextRow, ReviewStore, is_case, case_rows, event_rows, cas_applies, cas_row, cas_update,
  rowcount, insert_event, insert_case,
}
use ai_data_quality_platform.ReviewPersistence.Context.{
  entity_records_from_payload, normalized_context_fingerprint, fingerprint_eq,
}

-- The first row that a test accepts, as `fetchone` gives it.
unfoldable pub fetchone {ℓ} : {A : Type ℓ} → (A → Bool) → List A → Option A
fetchone test [] = none
fetchone test (row ∷ rows) = if test row then some row else fetchone test rows

-- `tuple(read(row) for row in rows)`: the first row that cannot be read raises.
unfoldable pub read_all {ℓ κ} :
    {A : Type ℓ} {B : Type κ}
    → (A → Result ReviewApplicationError B)
    → List A
    → Result ReviewApplicationError (List B)
read_all read [] = ok []
read_all read (row ∷ rows) = read row >>= λ value. read_all read rows >>= λ rest. ok (value ∷ rest)

abbrev is_pending : ReviewCase → Bool
is_pending c = status_eq c.status ReviewStatus.pending

-- `_assert_resolution_is_domain_approved`
unfoldable pub assert_domain_approved :
    ReviewCase → ReviewEvent → Result ReviewApplicationError (Unit {0})
unfolding event_type_of
assert_domain_approved c event = do
  raise_if (is_pending c) persisted_case_integrity
  r ← or_raise c.resolution persisted_case_integrity
  raise_if (not (is_resolution event)) review_event_integrity
  raise_if (not (event.review_case_id == c.review_case_id)) review_event_integrity
  raise_if (not (status_is_type c.status event.event_type)) review_event_integrity
  raise_if (not (event_type_eq (event_type_of r.human_decision) event.event_type))
      review_event_integrity
  raise_if (not (is_sequence event.resolution_sequence r.resolution_sequence))
      review_event_integrity
  raise_if (not (optional_text_eq r.reviewer_id event.reviewer_id)) review_event_integrity

-- `_require_resolvable_case`: the version is looked at before the status.
unfoldable pub require_resolvable_case :
    Option PersistedCase → ReviewCase → ℕ → Result ReviewApplicationError PersistedCase
require_resolvable_case found c version = do
  stored ← or_raise found (human_review case_not_found)
  raise_if
      (not (
        stored.case.pair.record_a_id == c.pair.record_a_id
        && stored.case.pair.record_b_id == c.pair.record_b_id))
      persisted_case_integrity
  raise_if (not (nat_eq stored.version version)) review_conflict
  raise_if (not (is_pending stored.case)) persisted_case_integrity
  ok stored

-- The organization that owns a queue, by the JOIN of `_SELECT_QUEUE_WITH_ORGANIZATION`.
unfoldable pub queue_organization :
    String → List ReviewQueue → List Organization → Option Organization
unfolding fetchone
queue_organization queue queues organizations =
    elim (fetchone (λ (q : ReviewQueue). q.review_queue_id == queue) queues) [
      | none ↦ none
      | some q ↦
          fetchone (λ (o : Organization). o.organization_id == q.organization_id) organizations
    ]

abbrev organization_active : OrganizationStatus → Bool
organization_active OrganizationStatus.active = true
organization_active OrganizationStatus.suspended = false

-- `_assert_queue_accepts_registration`
unfoldable pub assert_queue_accepts_registration :
    String → ReviewStore → Result ReviewApplicationError (Unit {0})
unfolding queue_organization
assert_queue_accepts_registration queue store = do
  owner ←
      or_raise (queue_organization queue store.review_queues store.organizations)
        review_queue_not_found
  raise_if (not (organization_active owner.status)) organization_not_active

-- `_assert_identity_matches`
unfoldable pub assert_identity_matches :
    PersistedCase → ReviewCase → Result ReviewApplicationError (Unit {0})
assert_identity_matches stored incoming =
    raise_if
      (not (
        stored.case.review_case_id == incoming.review_case_id
        && stored.case.pair.record_a_id == incoming.pair.record_a_id
        && stored.case.pair.record_b_id == incoming.pair.record_b_id))
      duplicate_case_registration

module _ (tools : StorageTools) (queue : String) where
  -- `_select_case`
  unfoldable pub select_case :
      String → ReviewStore → Result ReviewApplicationError (Option PersistedCase)
  unfolding fetchone row_to_persisted_case
  select_case case_id store = elim (fetchone (is_case queue case_id) store.review_cases) [
    | none ↦ ok none
    | some row ↦ row_to_persisted_case tools row >>= λ persisted. ok (some persisted)
  ]

  -- `_select_cases` without a filter
  unfoldable pub select_cases : ReviewStore → Result ReviewApplicationError (List PersistedCase)
  unfolding case_rows read_all row_to_persisted_case
  select_cases store = read_all (row_to_persisted_case tools) (case_rows queue store.review_cases)

  -- `_select_events` of the whole queue
  unfoldable pub select_events : ReviewStore → Result ReviewApplicationError (List ReviewEvent)
  unfolding event_rows read_all row_to_review_event
  select_events store =
      read_all (row_to_review_event tools) (event_rows queue store.review_case_events)

  -- `list_events`
  unfoldable pub list_events :
      String → ReviewStore → Result ReviewApplicationError (List ReviewEvent)
  unfolding event_rows read_all row_to_review_event
  list_events case_id store = read_all (row_to_review_event tools) (
      filter (λ (row : EventRow). row.review_case_id == case_id)
        (event_rows queue store.review_case_events))

  -- `get_case`
  unfoldable pub get_case : String → ReviewStore → Result ReviewApplicationError PersistedCase
  unfolding select_case
  get_case case_id store =
      select_case case_id store >>= λ found. or_raise found (human_review case_not_found)

  -- `load_workflow_bundle`
  unfoldable pub load_workflow_bundle : ReviewStore → Result ReviewApplicationError WorkflowBundle
  unfolding fetchone select_cases select_events reconstruct_history entity_records_from_payload
      workflow_bundle
  load_workflow_bundle store = do
    context ←
        or_raise
          (fetchone (λ (row : ContextRow). row.review_queue_id == queue) store.workflow_contexts)
          workflow_context_missing
    persisted ← select_cases store
    events ← select_events store
    history ← reconstruct_history persisted events
    records ← entity_records_from_payload context.entity_records
    workflow_bundle (record {
      persisted_cases = persisted;
      entity_records = records;
      resolution_snapshot = context.resolution_snapshot;
      next_resolution_sequence = history.next_resolution_sequence;
      audit_entries = history.audit_entries;
      entity_resolution_config_path = context.entity_resolution_config_path;
    })

  -- `_compare_and_swap_case`
  unfoldable pub compare_and_swap_case :
      ReviewCase → ℕ → String → ReviewStore → Result ReviewApplicationError ReviewStore
  unfolding cas_row cas_update rowcount case_payload_json
  compare_and_swap_case c version now store =
      if nat_eq (rowcount (cas_applies queue c.review_case_id version) store.review_cases) 1
      then ok (record store {
        review_cases =
            cas_update (cas_applies queue c.review_case_id version)
              (cas_row c.status (case_payload_json tools c) now) store.review_cases;
      })
      else err review_conflict

  -- `_append_event`
  unfoldable pub append_event :
      ReviewEvent → ReviewStore → Result ReviewApplicationError ReviewStore
  unfolding event_to_row insert_event
  append_event event store =
      event_to_row event queue store.next_event_id >>= λ row. insert_event row store

  -- `apply_resolution`
  unfoldable pub apply_resolution :
      ReviewCase
      → ℕ
      → ReviewEvent
      → String
      → ReviewStore
      → Result ReviewApplicationError (PersistedCase × ReviewStore)
  unfolding assert_domain_approved select_case require_resolvable_case compare_and_swap_case
      append_event with_case
  apply_resolution c version event now store = do
    assert_domain_approved c event
    found ← select_case c.review_case_id store
    stored ← require_resolvable_case found c version
    swapped ← compare_and_swap_case c version now store
    appended ← append_event event swapped
    after ← with_case tools.strip stored c now
    ok (after, appended)
