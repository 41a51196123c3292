-- ===== src/ReviewPersistence/Tables.antt =====
-- review_persistence/schema.py: the tables that a review queue is kept in, with the statements of
-- sqlite/review_repository.py on them and the constraints that SQLite checks. A statement that breaks a constraint raises
-- IntegrityError, and the transaction around it is rolled back.
pub mod Updates
use ai_data_quality_platform.Base.{
  ℕ, suc, ◌+◌, String, Bool, true, false, not, Option, none, some, List, [], ◌∷◌, ◌++◌, ◌&&◌, ◌||◌,
  ◌==◌, if◌then◌else◌, nat_eq, ltb, text_lt, Result, ok, err, raise_if, ◌>>=◌, ◌>>◌, filter, sorted,
  any,
}
use ai_data_quality_platform.EntityResolution.Models.{EntityRecord}
use ai_data_quality_platform.HumanReview.Models.{ReviewStatus, ReviewCase}
use ai_data_quality_platform.ReviewApi.Tenancy.{Organization, ReviewQueue}
use ai_data_quality_platform.ReviewApplication.Errors.{ReviewApplicationError, storage_constraint}
use ai_data_quality_platform.ReviewApplication.Models.{ReviewEventType, is_resolution_type, is_some}
use ai_data_quality_platform.ReviewApplication.Bundle.{Snapshot}
use ai_data_quality_platform.ReviewPersistence.Rows.{CaseRow, EventRow}

-- The table review_workflow_context.
pub record ContextRow : Type 0 where
  pub review_queue_id : String
  pub entity_records : List EntityRecord
  pub resolution_snapshot : Snapshot
  pub entity_resolution_config_path : Option String
  pub schema_version : String
  pub created_at_utc : String
  pub updated_at_utc : String

-- The rows in the order in which they were inserted, and the next AUTOINCREMENT id of an event.
pub record ReviewStore : Type 0 where
  pub organizations : List Organization
  pub review_queues : List ReviewQueue
  pub workflow_contexts : List ContextRow
  pub review_cases : List CaseRow
  pub review_case_events : List EventRow
  pub next_event_id : ℕ

abbrev pub in_queue : String → CaseRow → Bool
in_queue queue row = row.review_queue_id == queue

abbrev pub is_case : String → String → CaseRow → Bool
is_case queue case_id row = row.review_queue_id == queue && row.review_case_id == case_id

-- `ORDER BY created_at_utc, review_case_id`
unfoldable pub case_order : CaseRow → CaseRow → Bool
unfolding text_lt
case_order r s =
    text_lt r.created_at_utc s.created_at_utc
    || (r.created_at_utc == s.created_at_utc && text_lt r.review_case_id s.review_case_id)

-- `ORDER BY event_id ASC`
abbrev pub event_order : EventRow → EventRow → Bool
event_order r s = ltb r.event_id s.event_id

-- The rows that `_SELECT_CASES` with `_CASE_ORDER` finds.
unfoldable pub case_rows : String → List CaseRow → List CaseRow
unfolding case_order
case_rows queue rows = sorted case_order (filter (in_queue queue) rows)

-- The rows that `_SELECT_EVENTS` with `_EVENT_ORDER` finds.
unfoldable pub event_rows : String → List EventRow → List EventRow
event_rows queue rows =
    sorted event_order (filter (λ (row : EventRow). row.review_queue_id == queue) rows)

-- `_CAS_UPDATE_CASE`: the condition on a row, and what is set.
abbrev pub cas_applies : String → String → ℕ → CaseRow → Bool
cas_applies queue case_id version row = is_case queue case_id row && nat_eq row.version version

unfoldable pub cas_row : ReviewStatus → ReviewCase → String → CaseRow → CaseRow
cas_row status payload now row = record row {
  status = status;
  version = row.version + 1;
  case_payload = payload;
  updated_at_utc = now;
}

-- The rows after the update, and `cursor.rowcount`.
unfoldable pub cas_update : (CaseRow → Bool) → (CaseRow → CaseRow) → List CaseRow → List CaseRow
cas_update applies change [] = []
cas_update applies change (row ∷ rows) =
    (if applies row then change row else row) ∷ cas_update applies change rows

unfoldable pub rowcount : (CaseRow → Bool) → List CaseRow → ℕ
rowcount applies [] = 0
rowcount applies (row ∷ rows) = (if applies row then 1 else 0) + rowcount applies rows

abbrev same_sequence : Option ℕ → Option ℕ → Bool
same_sequence (some m) (some n) = nat_eq m n
same_sequence _ _ = false

-- The CHECK of the column resolution_sequence.
unfoldable pub sequence_check : Option ℕ → Bool
sequence_check none = true
sequence_check (some n) = not (ltb n 1)

-- The table CHECK of review_case_events.
unfoldable pub event_check : EventRow → Bool
event_check row =
    (is_resolution_type row.event_type
      && is_some row.audit_entry
      && is_some row.resolution_sequence
      && not (is_some row.suggestion_id))
    || (not (is_resolution_type row.event_type)
        && not (is_some row.audit_entry)
        && not (is_some row.resolution_sequence)
        && not (is_some row.reviewer_id)
        && elim (row.event_type) [
          | ReviewEventType.semantic_suggestion_recorded ↦ is_some row.suggestion_id
          | _ ↦ not (is_some row.suggestion_id)
        ])

-- The unique index on the queue and the resolution sequence.
abbrev pub takes_sequence : EventRow → EventRow → Bool
takes_sequence row other =
    other.review_queue_id == row.review_queue_id
    && same_sequence other.resolution_sequence row.resolution_sequence

-- `_INSERT_EVENT`: the foreign key on the case, the checks and the unique index.
unfoldable pub insert_event : EventRow → ReviewStore → Result ReviewApplicationError ReviewStore
unfolding sequence_check event_check
insert_event row store =
    if any (is_case row.review_queue_id row.review_case_id) store.review_cases
      && sequence_check row.resolution_sequence
      && event_check row
      && not (any (takes_sequence row) store.review_case_events)
    then ok (record store {
      review_case_events = store.review_case_events ++ row ∷ [];
      next_event_id = store.next_event_id + 1;
    })
    else err storage_constraint

-- The primary key of review_cases, and the key on the queue and the pair.
abbrev pub clashes_with : CaseRow → CaseRow → Bool
clashes_with row other =
    other.review_queue_id == row.review_queue_id
    && (other.review_case_id == row.review_case_id
        || (other.record_a_id == row.record_a_id && other.record_b_id == row.record_b_id))

-- `_INSERT_CASE`: `none` is IntegrityError.
unfoldable pub insert_case : CaseRow → ReviewStore → Option ReviewStore
insert_case row store =
    if any (λ (q : ReviewQueue). q.review_queue_id == row.review_queue_id) store.review_queues
      && not (ltb row.version 1)
      && not (any (clashes_with row) store.review_cases)
    then some (record store { review_cases = store.review_cases ++ row ∷ [] })
    else none
