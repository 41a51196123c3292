-- ===== src/ReviewApplication/Models.antt =====
-- review_application/models.py: `PersistedCase` and `ReviewEvent` with their checks, and the
-- constructors of events. `strip` is Python's `str.strip`.
pub mod Recorded
use ai_data_quality_platform.Base.{
  ℕ, ◌+◌, String, Bool, true, false, not, Option, none, some, ◌∷◌, ◌&&◌, ◌||◌, ◌==◌, if◌then◌else◌,
  nat_eq, ltb, Result, ok, err, ◌>>=◌, ◌>>◌, raise_if, or_raise,
}
use ai_data_quality_platform.Base.Assoc.{lookup}
use ai_data_quality_platform.HumanReview.Models.{
  ReviewStatus, HumanReviewDecision, ReviewAuditEntry, ReviewCase,
}
use ai_data_quality_platform.ReviewApplication.Errors.{
  ReviewApplicationError, persisted_case_integrity, review_event_integrity, value_error,
}
use ai_data_quality_platform.ReviewApplication.Payload.{Json, null, text, number, Payload, to_dict}

pub data ReviewEventType : Type 0 where
  case_created semantic_suggestion_recorded match no_match deferred : ReviewEventType

abbrev pub event_type_eq : ReviewEventType → ReviewEventType → Bool
event_type_eq ReviewEventType.case_created ReviewEventType.case_created = true
event_type_eq ReviewEventType.semantic_suggestion_recorded
      ReviewEventType.semantic_suggestion_recorded =
    true
event_type_eq ReviewEventType.match ReviewEventType.match = true
event_type_eq ReviewEventType.no_match ReviewEventType.no_match = true
event_type_eq ReviewEventType.deferred ReviewEventType.deferred = true
event_type_eq _ _ = false

-- `event_type in RESOLUTION_EVENT_TYPES`
abbrev pub is_resolution_type : ReviewEventType → Bool
is_resolution_type ReviewEventType.case_created = false
is_resolution_type ReviewEventType.semantic_suggestion_recorded = false
is_resolution_type _ = true

-- `DECISION_TO_EVENT_TYPE`
unfoldable pub event_type_of : HumanReviewDecision → ReviewEventType
event_type_of HumanReviewDecision.match = ReviewEventType.match
event_type_of HumanReviewDecision.no_match = ReviewEventType.no_match
event_type_of HumanReviewDecision.defer = ReviewEventType.deferred

-- `case.status.value == event.event_type.value`: the values are the same texts.
abbrev pub status_is_type : ReviewStatus → ReviewEventType → Bool
status_is_type ReviewStatus.match ReviewEventType.match = true
status_is_type ReviewStatus.no_match ReviewEventType.no_match = true
status_is_type ReviewStatus.deferred ReviewEventType.deferred = true
status_is_type _ _ = false

-- `HumanReviewDecision(value)`, which raises ValueError for another text.
unfoldable pub decision_from_value : String → Option HumanReviewDecision
decision_from_value value =
    if value == "MATCH"
    then some HumanReviewDecision.match
    else if value == "NO_MATCH"
    then some HumanReviewDecision.no_match
    else if value == "DEFER"
    then some HumanReviewDecision.defer
    else none

pub record PersistedCase : Type 0 where
  pub case : ReviewCase
  pub version : ℕ
  pub created_at_utc : String
  pub updated_at_utc : String

pub record ReviewEvent : Type 0 where
  pub review_case_id : String
  pub event_type : ReviewEventType
  pub occurred_at_utc : String
  pub schema_version : Option String
  pub event_id : Option ℕ
  pub resolution_sequence : Option ℕ
  pub reviewer_id : Option String
  pub audit_entry_payload : Option Payload
  pub suggestion_id : Option String

-- `ReviewEvent.is_resolution`
abbrev pub is_resolution : ReviewEvent → Bool
is_resolution event = is_resolution_type event.event_type

abbrev pub is_some {ℓ} : {A : Type ℓ} → Option A → Bool
is_some none = false
is_some (some value) = true

-- `value == expected`, for what `payload.get` answers.
abbrev is_text : Option Json → String → Bool
is_text (some (text value)) expected = value == expected
is_text _ expected = false

abbrev is_number : Option Json → ℕ → Bool
is_number (some (number value)) expected = nat_eq value expected
is_number _ expected = false

abbrev decision_of : Option Json → Option HumanReviewDecision
decision_of (some (text value)) = decision_from_value value
decision_of _ = none

-- `_assert_payload_agrees`
unfoldable pub assert_payload_agrees :
    ReviewEvent → ℕ → Payload → Result ReviewApplicationError (Unit {0})
unfolding lookup decision_from_value event_type_of
assert_payload_agrees event sequence payload = do
  raise_if (not (is_text (lookup "review_case_id" payload) event.review_case_id))
      review_event_integrity
  raise_if (not (is_number (lookup "resolution_sequence" payload) sequence)) review_event_integrity
  decision ← or_raise (decision_of (lookup "human_decision" payload)) review_event_integrity
  raise_if (not (event_type_eq (event_type_of decision) event.event_type)) review_event_integrity

-- The payload must be there, and an empty one counts as missing.
validate_payload :
    ReviewEvent → Option ℕ → Option Payload → Result ReviewApplicationError (Unit {0})
unfolding assert_payload_agrees
validate_payload event (some sequence) (some (first ∷ rest)) = do
  raise_if (ltb sequence 1) review_event_integrity
  raise_if (is_some event.suggestion_id) review_event_integrity
  assert_payload_agrees event sequence (first ∷ rest)
validate_payload event _ _ = err review_event_integrity

-- `_validate_resolution_event`
unfoldable pub validate_resolution_event : ReviewEvent → Result ReviewApplicationError (Unit {0})
unfolding validate_payload
validate_resolution_event event =
    validate_payload event event.resolution_sequence event.audit_entry_payload

abbrev carries_resolution : ReviewEvent → Bool
carries_resolution event =
    is_some event.resolution_sequence
    || is_some event.audit_entry_payload
    || is_some event.reviewer_id

module _ (strip : String → String) where
  -- `_require_text`
  unfoldable pub require_text :
      ReviewApplicationError → String → Result ReviewApplicationError (Unit {0})
  require_text raised value = raise_if (strip value == "") raised

  abbrev require_optional_text : Option String → Result ReviewApplicationError (Unit {0})
  require_optional_text none = ok tt
  require_optional_text (some value) = require_text review_event_integrity value

  -- `_validate_semantic_event`
  unfoldable pub validate_semantic_event : ReviewEvent → Result ReviewApplicationError (Unit {0})
  unfolding require_text
  validate_semantic_event event = do
    suggestion ← or_raise event.suggestion_id review_event_integrity
    raise_if (suggestion == "") review_event_integrity
    require_text review_event_integrity suggestion
    raise_if (carries_resolution event) review_event_integrity

  -- The last test of `__post_init__`, by the type of the event.
  validate_by_type : ReviewEventType → ReviewEvent → Result ReviewApplicationError (Unit {0})
  unfolding validate_resolution_event validate_semantic_event
  validate_by_type ReviewEventType.case_created event =
      raise_if (carries_resolution event || is_some event.suggestion_id) review_event_integrity
  validate_by_type ReviewEventType.semantic_suggestion_recorded event =
      validate_semantic_event event
  validate_by_type _ event = validate_resolution_event event

  -- `ReviewEvent(...)`: the event, if `__post_init__` raises nothing.
  unfoldable pub review_event : ReviewEvent → Result ReviewApplicationError ReviewEvent
  unfolding validate_by_type require_text
  review_event event = do
    require_text review_event_integrity event.review_case_id
    require_text review_event_integrity event.occurred_at_utc
    require_optional_text event.schema_version
    validate_by_type event.event_type event
    ok event

  -- `ReviewEvent.from_audit_entry`; a text that is no decision raises ValueError there.
  unfoldable pub from_audit_entry :
      ReviewAuditEntry → String → Result ReviewApplicationError ReviewEvent
  unfolding review_event event_type_of decision_from_value to_dict
  from_audit_entry entry occurred_at = do
    decision ← or_raise (decision_from_value entry.human_decision) value_error
    review_event (record {
      review_case_id = entry.review_case_id;
      event_type = event_type_of decision;
      occurred_at_utc = occurred_at;
      schema_version = none;
      event_id = none;
      resolution_sequence = some entry.resolution_sequence;
      reviewer_id = entry.reviewer_id;
      audit_entry_payload = some (to_dict entry);
      suggestion_id = none;
    })

  -- `ReviewEvent.semantic_suggestion_recorded`
  unfoldable pub suggestion_recorded :
      String → String → String → Result ReviewApplicationError ReviewEvent
  unfolding review_event
  suggestion_recorded case_id suggestion_id occurred_at = review_event (record {
    review_case_id = case_id;
    event_type = ReviewEventType.semantic_suggestion_recorded;
    occurred_at_utc = occurred_at;
    schema_version = none;
    event_id = none;
    resolution_sequence = none;
    reviewer_id = none;
    audit_entry_payload = none;
    suggestion_id = some suggestion_id;
  })

  -- `PersistedCase(...)`
  unfoldable pub persisted_case : PersistedCase → Result ReviewApplicationError PersistedCase
  unfolding require_text
  persisted_case persisted = do
    raise_if (ltb persisted.version 1) persisted_case_integrity
    require_text persisted_case_integrity persisted.created_at_utc
    require_text persisted_case_integrity persisted.updated_at_utc
    require_text persisted_case_integrity persisted.case.review_case_id
    ok persisted

  -- `PersistedCase.initial`
  unfoldable pub initial_case : ReviewCase → String → Result ReviewApplicationError PersistedCase
  unfolding persisted_case
  initial_case case now =
      persisted_case
        (record { case = case; version = 1; created_at_utc = now; updated_at_utc = now })

  -- `PersistedCase.with_case`
  unfoldable pub with_case :
      PersistedCase → ReviewCase → String → Result ReviewApplicationError PersistedCase
  unfolding persisted_case
  with_case persisted case now = do
    raise_if (not (case.review_case_id == persisted.case.review_case_id)) persisted_case_integrity
    persisted_case (record {
      case = case;
      version = persisted.version + 1;
      created_at_utc = persisted.created_at_utc;
      updated_at_utc = now;
    })
