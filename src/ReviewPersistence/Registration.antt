-- ===== src/ReviewPersistence/Registration.antt =====
-- review_persistence/sqlite/review_repository.py: `register_workflow` and `register_case`.
pub mod Contexts
pub mod Stored
pub mod Added
pub mod Additions
pub mod Validity
use ai_data_quality_platform.Base.{
  String, Bool, false, not, Option, none, some, List, [], ◌∷◌, ◌++◌, ◌||◌, ◌==◌, if◌then◌else◌,
  Result, ok, err, ◌>>=◌, ◌>>◌, raise_if, contains, text_eq, map,
}
use ai_data_quality_platform.EntityResolution.Models.{EntityRecord}
use ai_data_quality_platform.HumanReview.Models.{
  ReviewStatus, status_eq, ReviewCase, ReviewWorkflowState,
}
use ai_data_quality_platform.ReviewApplication.Errors.{
  ReviewApplicationError, persisted_case_integrity, duplicate_case_registration, review_persistence,
  workflow_context_conflict,
}
use ai_data_quality_platform.ReviewApplication.Models.{PersistedCase, initial_case}
use ai_data_quality_platform.ReviewApplication.Bundle.{Snapshot}
use ai_data_quality_platform.ReviewPersistence.Rows.{
  StorageTools, case_to_row, database_schema_version,
}
use ai_data_quality_platform.ReviewPersistence.Tables.{ContextRow, ReviewStore, insert_case}
use ai_data_quality_platform.ReviewPersistence.Context.{
  normalized_context_fingerprint, fingerprint_eq,
}
use ai_data_quality_platform.ReviewPersistence.Repository.{
  fetchone, select_case, assert_queue_accepts_registration, assert_identity_matches,
}

-- `_assert_registrable`
unfoldable pub assert_registrable : ReviewCase → Result ReviewApplicationError (Unit {0})
assert_registrable c =
    raise_if (not (status_eq c.status ReviewStatus.pending)) persisted_case_integrity

unfoldable pub assert_all_registrable : List ReviewCase → Result ReviewApplicationError (Unit {0})
unfolding assert_registrable
assert_all_registrable [] = ok tt
assert_all_registrable (c ∷ cases) = assert_registrable c >> assert_all_registrable cases

-- Each record of each case must be known.
records_cover : List String → List ReviewCase → Result ReviewApplicationError (Unit {0})
records_cover known [] = ok tt
records_cover known (c ∷ cases) =
    raise_if (not (contains c.pair.record_a_id known) || not (contains c.pair.record_b_id known))
      review_persistence
    >> records_cover known cases

-- `_assert_records_cover_cases`
unfoldable pub assert_records_cover_cases :
    List ReviewCase → List EntityRecord → Result ReviewApplicationError (Unit {0})
unfolding records_cover
assert_records_cover_cases cases [] = err review_persistence
assert_records_cover_cases cases (r ∷ records) =
    records_cover (map (λ s. s.record_id) (r ∷ records)) cases

-- Both paths are given and differ.
abbrev other_config : Option String → Option String → Bool
other_config (some incoming) (some stored) = not (incoming == stored)
other_config _ _ = false

module _ (tools : StorageTools) (queue : String) where
  -- The row that `_store_context` inserts.
  pub context_row : List EntityRecord → Snapshot → Option String → String → ContextRow
  context_row records snapshot config_path now = record {
    review_queue_id = queue;
    entity_records = records;
    resolution_snapshot = snapshot;
    entity_resolution_config_path = config_path;
    schema_version = database_schema_version;
    created_at_utc = now;
    updated_at_utc = now;
  }

  -- The tests of `_store_context` on a stored context.
  pub assert_same_context :
      List EntityRecord
      → Snapshot
      → Option String
      → ContextRow
      → Result ReviewApplicationError (Unit {0})
  unfolding normalized_context_fingerprint fingerprint_eq
  assert_same_context records snapshot config_path stored = do
    raise_if
        (not (
          fingerprint_eq
            (normalized_context_fingerprint stored.entity_records stored.resolution_snapshot)
            (normalized_context_fingerprint records snapshot)))
        workflow_context_conflict
    raise_if (other_config config_path stored.entity_resolution_config_path)
        workflow_context_conflict

  -- `_store_context`
  unfoldable pub store_context :
      List EntityRecord
      → Snapshot
      → Option String
      → String
      → ReviewStore
      → Result ReviewApplicationError ReviewStore
  unfolding fetchone context_row assert_same_context
  store_context records snapshot config_path now store =
      elim (fetchone (λ (row : ContextRow). row.review_queue_id == queue) store.workflow_contexts) [
        | none ↦ ok (record store {
          workflow_contexts =
              store.workflow_contexts ++ context_row records snapshot config_path now ∷ [];
        })
        | some stored ↦ assert_same_context records snapshot config_path stored >>= λ same. ok store
      ]

  -- A stored case is returned as it stands; otherwise the case is inserted, and
  -- `_registration_conflict` names every breach of a constraint alike.
  unfoldable pub register_found :
      ReviewCase
      → String
      → ReviewStore
      → Option PersistedCase
      → Result ReviewApplicationError (PersistedCase × ReviewStore)
  unfolding assert_identity_matches initial_case insert_case case_to_row
  register_found c now store (some existing) =
      assert_identity_matches existing c >>= λ same. ok (existing, store)
  register_found c now store none = initial_case tools.strip c now >>= λ persisted.
      elim (insert_case (case_to_row tools persisted queue) store) [
        | none ↦ err duplicate_case_registration
        | some inserted ↦ ok (persisted, inserted)
      ]

  -- `_register_case_in`
  unfoldable pub register_case_in :
      ReviewCase
      → String
      → ReviewStore
      → Result ReviewApplicationError (PersistedCase × ReviewStore)
  unfolding assert_registrable select_case register_found
  register_case_in c now store = do
    assert_registrable c
    found ← select_case tools queue c.review_case_id store
    register_found c now store found

  -- The cases one after another.
  unfoldable pub register_cases_in :
      List ReviewCase
      → String
      → ReviewStore
      → Result ReviewApplicationError (List PersistedCase × ReviewStore)
  unfolding register_case_in
  register_cases_in [] now store = ok ([], store)
  register_cases_in (c ∷ cases) now store = do
    first ← register_case_in c now store
    rest ← register_cases_in cases now first.1
    ok (first.0 ∷ rest.0, rest.1)

  -- `register_case`
  unfoldable pub register_case :
      ReviewCase
      → String
      → ReviewStore
      → Result ReviewApplicationError (PersistedCase × ReviewStore)
  unfolding assert_queue_accepts_registration register_case_in
  register_case c now store =
      assert_queue_accepts_registration queue store >> register_case_in c now store

  -- `register_workflow`
  unfoldable pub register_workflow :
      ReviewWorkflowState
      → List EntityRecord
      → Snapshot
      → Option String
      → String
      → ReviewStore
      → Result ReviewApplicationError (List PersistedCase × ReviewStore)
  unfolding assert_records_cover_cases assert_all_registrable assert_queue_accepts_registration
      store_context register_cases_in
  register_workflow state records snapshot config_path now store = do
    assert_records_cover_cases state.cases records
    assert_all_registrable state.cases
    assert_queue_accepts_registration queue store
    stored ← store_context records snapshot config_path now store
    register_cases_in state.cases now stored
