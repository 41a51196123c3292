-- ===== src/ReviewPersistence/Rows.antt =====
-- review_persistence/sqlite/mapper.py and event_mapper.py: a stored case and a stored event as rows.
-- A JSON column holds the dictionary that its text spells: for a case what `ReviewCase.to_dict`
-- keeps, which is the case with its score rounded.
pub mod Reading
use ai_data_quality_platform.Base.{
  ℕ, String, not, Option, none, some, ◌&&◌, ◌==◌, if◌then◌else◌, Result, ok, err, ◌>>=◌, ◌>>◌,
  raise_if,
}
use ai_data_quality_platform.Base.Float.{Float}
use ai_data_quality_platform.EntityResolution.Models.{MatchDecisionType, ordered}
use ai_data_quality_platform.HumanReview.Models.{
  ReviewStatus, status_eq, ReviewResolution, ReviewCase,
}
use ai_data_quality_platform.ReviewApplication.Errors.{
  ReviewApplicationError, review_event_integrity, review_persistence,
}
use ai_data_quality_platform.ReviewApplication.Payload.{Payload}
use ai_data_quality_platform.ReviewApplication.Models.{
  ReviewEventType, PersistedCase, ReviewEvent, persisted_case, review_event,
}

-- `str.strip`, and `round(x, 6)` on floats.
pub record StorageTools : Type 0 where
  pub strip : String → String
  pub round_score : Float → Float

abbrev pub database_schema_version : String
database_schema_version = "2.0.0"

-- The table review_cases.
pub record CaseRow : Type 0 where
  pub review_queue_id : String
  pub review_case_id : String
  pub record_a_id : String
  pub record_b_id : String
  pub status : ReviewStatus
  pub machine_decision : MatchDecisionType
  pub machine_score : Float
  pub version : ℕ
  pub case_payload : ReviewCase
  pub schema_version : String
  pub created_at_utc : String
  pub updated_at_utc : String

-- The table review_case_events.
pub record EventRow : Type 0 where
  pub event_id : ℕ
  pub review_queue_id : String
  pub review_case_id : String
  pub event_type : ReviewEventType
  pub resolution_sequence : Option ℕ
  pub reviewer_id : Option String
  pub audit_entry : Option Payload
  pub suggestion_id : Option String
  pub occurred_at_utc : String
  pub schema_version : String

-- `_resolution_from_payload`: the id is that of the case.
unfoldable pub resolution_from_payload : ReviewCase → Option ReviewResolution
resolution_from_payload payload = elim (payload.resolution) [
  | none ↦ none
  | some r ↦ some (record r { review_case_id = payload.review_case_id })
]

-- `review_case_from_payload`
unfoldable pub review_case_from_payload : ReviewCase → ReviewCase
unfolding resolution_from_payload ordered
review_case_from_payload payload = record payload {
  pair = ordered payload.pair.record_a_id payload.pair.record_b_id;
  record_ids = (payload.pair.record_a_id, payload.pair.record_b_id);
  resolution = resolution_from_payload payload;
}

-- `_assert_row_agrees_with_payload`
unfoldable pub assert_row_agrees_with_payload :
    CaseRow → ReviewCase → Result ReviewApplicationError (Unit {0})
assert_row_agrees_with_payload row payload =
    raise_if
      (not (
        row.review_case_id == payload.review_case_id
        && row.record_a_id == payload.pair.record_a_id
        && row.record_b_id == payload.pair.record_b_id
        && status_eq row.status payload.status))
      review_persistence

module _ (tools : StorageTools) where
  -- `case_payload_json`
  unfoldable pub case_payload_json : ReviewCase → ReviewCase
  case_payload_json c = record c { machine_score = tools.round_score c.machine_score }

  -- `case_to_row`
  unfoldable pub case_to_row : PersistedCase → String → CaseRow
  unfolding case_payload_json
  case_to_row persisted queue = record {
    review_queue_id = queue;
    review_case_id = persisted.case.review_case_id;
    record_a_id = persisted.case.pair.record_a_id;
    record_b_id = persisted.case.pair.record_b_id;
    status = persisted.case.status;
    machine_decision = persisted.case.machine_decision;
    machine_score = persisted.case.machine_score;
    version = persisted.version;
    case_payload = case_payload_json persisted.case;
    schema_version = database_schema_version;
    created_at_utc = persisted.created_at_utc;
    updated_at_utc = persisted.updated_at_utc;
  }

  -- `row_to_persisted_case`
  unfoldable pub row_to_persisted_case : CaseRow → Result ReviewApplicationError PersistedCase
  unfolding assert_row_agrees_with_payload review_case_from_payload persisted_case
  row_to_persisted_case row = do
    assert_row_agrees_with_payload row row.case_payload
    persisted_case tools.strip (record {
      case = review_case_from_payload row.case_payload;
      version = row.version;
      created_at_utc = row.created_at_utc;
      updated_at_utc = row.updated_at_utc;
    })

  -- `row_to_review_event`
  unfoldable pub row_to_review_event : EventRow → Result ReviewApplicationError ReviewEvent
  unfolding review_event
  row_to_review_event row = review_event tools.strip (record {
    review_case_id = row.review_case_id;
    event_type = row.event_type;
    occurred_at_utc = row.occurred_at_utc;
    schema_version = some row.schema_version;
    event_id = some row.event_id;
    resolution_sequence = row.resolution_sequence;
    reviewer_id = row.reviewer_id;
    audit_entry_payload = row.audit_entry;
    suggestion_id = row.suggestion_id;
  })

-- `event_to_row`, with the id that SQLite assigns.
unfoldable pub row_of_event : ReviewEvent → String → ℕ → EventRow
row_of_event event queue event_id = record {
  event_id = event_id;
  review_queue_id = queue;
  review_case_id = event.review_case_id;
  event_type = event.event_type;
  resolution_sequence = event.resolution_sequence;
  reviewer_id = event.reviewer_id;
  audit_entry = event.audit_entry_payload;
  suggestion_id = event.suggestion_id;
  occurred_at_utc = event.occurred_at_utc;
  schema_version = database_schema_version;
}

-- An event of another schema version is refused.
unfoldable pub event_to_row : ReviewEvent → String → ℕ → Result ReviewApplicationError EventRow
unfolding row_of_event
event_to_row event queue event_id = elim (event.schema_version) [
  | none ↦ ok (row_of_event event queue event_id)
  | some version ↦
      if version == database_schema_version
      then ok (row_of_event event queue event_id)
      else err review_event_integrity
]
