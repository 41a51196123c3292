-- ===== src/ReviewApplication/History.antt =====
-- review_application/history.py: the audit trail, rebuilt from the stored cases and the stored events.
pub mod Sorting
pub mod Index
pub mod Entries
pub mod Extension
pub mod Numbering
use ai_data_quality_platform.Base.{
  ℕ, suc, ◌+◌, String, Bool, true, false, not, Option, none, some, List, [], ◌∷◌, ◌&&◌, ◌==◌,
  if◌then◌else◌, nat_eq, ltb, Result, ok, err, ◌>>=◌, ◌>>◌, raise_if, or_raise, sorted, length, map,
}
use ai_data_quality_platform.Base.Assoc.{Dict, lookup, insert, dict_of}
use ai_data_quality_platform.EntityResolution.Models.{match_decision_value}
use ai_data_quality_platform.HumanReview.Models.{
  ReviewStatus, HumanReviewDecision, status_eq, human_decision_value, ReviewResolution,
  ReviewAuditEntry, ReviewCase,
}
use ai_data_quality_platform.ReviewApplication.Errors.{
  ReviewApplicationError, review_event_integrity,
}
use ai_data_quality_platform.ReviewApplication.Payload.{Payload, audit_entry_from_payload}
use ai_data_quality_platform.ReviewApplication.Models.{
  ReviewEventType, event_type_eq, event_type_of, status_is_type, PersistedCase, ReviewEvent,
  is_resolution, is_some,
}

pub record ReconstructedHistory : Type 0 where
  pub audit_entries : List ReviewAuditEntry
  pub next_resolution_sequence : ℕ

abbrev pub optional_text_eq : Option String → Option String → Bool
optional_text_eq none none = true
optional_text_eq (some a) (some b) = a == b
optional_text_eq _ _ = false

abbrev pub is_sequence : Option ℕ → ℕ → Bool
is_sequence none expected = false
is_sequence (some sequence) expected = nat_eq sequence expected

-- `audit_entry_from_case`
unfoldable pub audit_entry_from_case : ReviewCase → Result ReviewApplicationError ReviewAuditEntry
unfolding match_decision_value human_decision_value
audit_entry_from_case c = or_raise c.resolution review_event_integrity >>= λ r. ok (record {
  review_case_id = c.review_case_id;
  record_a_id = c.pair.record_a_id;
  record_b_id = c.pair.record_b_id;
  machine_decision = match_decision_value c.machine_decision;
  machine_reason = c.machine_reason;
  human_decision = human_decision_value r.human_decision;
  reviewer_id = r.reviewer_id;
  resolution_sequence = r.resolution_sequence;
  downstream_action = r.downstream_action;
})

-- `_assert_event_agrees_with_case`
unfoldable pub assert_event_agrees_with_case :
    ReviewEvent → ReviewCase → Result ReviewApplicationError (Unit {0})
unfolding event_type_of
assert_event_agrees_with_case event c = do
  raise_if (not (status_is_type c.status event.event_type)) review_event_integrity
  r ← or_raise c.resolution review_event_integrity
  raise_if (not (is_sequence event.resolution_sequence r.resolution_sequence))
      review_event_integrity
  raise_if (not (optional_text_eq r.reviewer_id event.reviewer_id)) review_event_integrity
  raise_if (not (event_type_eq (event_type_of r.human_decision) event.event_type))
      review_event_integrity

-- One round of the loop in `_resolution_events_by_case`.
unfoldable pub index_event :
    Dict ReviewCase
    → Dict ReviewEvent
    → ReviewEvent
    → Result ReviewApplicationError (Dict ReviewEvent)
unfolding assert_event_agrees_with_case lookup insert
index_event cases indexed event = if not (is_resolution event) then ok indexed else (do
  c ← or_raise (lookup event.review_case_id cases) review_event_integrity
  raise_if (is_some (lookup event.review_case_id indexed)) review_event_integrity
  assert_event_agrees_with_case event c
  ok (insert event.review_case_id event indexed))

-- `_resolution_events_by_case`, from the events that are indexed.
unfoldable pub index_events :
    Dict ReviewCase
    → Dict ReviewEvent
    → List ReviewEvent
    → Result ReviewApplicationError (Dict ReviewEvent)
unfolding index_event
index_events cases indexed [] = ok indexed
index_events cases indexed (event ∷ events) =
    index_event cases indexed event >>= λ more. index_events cases more events

-- `_entry_from_event`; an empty payload counts as missing.
unfoldable pub entry_from_payload :
    ReviewCase → Option Payload → Result ReviewApplicationError ReviewAuditEntry
unfolding audit_entry_from_payload
entry_from_payload c (some (first ∷ rest)) = do
  entry ← audit_entry_from_payload (first ∷ rest)
  raise_if
      (not (entry.record_a_id == c.pair.record_a_id && entry.record_b_id == c.pair.record_b_id))
      review_event_integrity
  ok entry
entry_from_payload c _ = err review_event_integrity

-- The entry of a resolved case: its event's, or its own where it left none.
unfoldable pub entry_of :
    ReviewCase → Option ReviewEvent → Result ReviewApplicationError ReviewAuditEntry
unfolding audit_entry_from_case entry_from_payload
entry_of c none = audit_entry_from_case c
entry_of c (some event) = entry_from_payload c event.audit_entry_payload

-- The loop that collects the entries of the cases that are not pending.
unfoldable pub collect_entries :
    Dict ReviewEvent → Dict ReviewCase → Result ReviewApplicationError (List ReviewAuditEntry)
unfolding entry_of lookup
collect_entries events [] = ok []
collect_entries events ((case_id, c) ∷ cases) =
    if status_eq c.status ReviewStatus.pending then collect_entries events cases else (do
      entry ← entry_of c (lookup case_id events)
      rest ← collect_entries events cases
      ok (entry ∷ rest))

-- `_assert_contiguous_sequences`, from a position on.
unfoldable pub assert_contiguous :
    ℕ → List ReviewAuditEntry → Result ReviewApplicationError (Unit {0})
assert_contiguous position [] = ok tt
assert_contiguous position (e ∷ entries) =
    raise_if (not (nat_eq e.resolution_sequence position)) review_event_integrity
    >> assert_contiguous (position + 1) entries

abbrev pub sequence_before : ReviewAuditEntry → ReviewAuditEntry → Bool
sequence_before e f = ltb e.resolution_sequence f.resolution_sequence

-- `{persisted.review_case_id: persisted.case for persisted in persisted_cases}`
unfoldable pub cases_by_id : List PersistedCase → Dict ReviewCase
unfolding dict_of
cases_by_id persisted = dict_of (map (λ p. (p.case.review_case_id, p.case)) persisted)

-- `reconstruct_history`
unfoldable pub reconstruct_history :
    List PersistedCase → List ReviewEvent → Result ReviewApplicationError ReconstructedHistory
unfolding index_events collect_entries assert_contiguous cases_by_id
reconstruct_history persisted events = do
  indexed ← index_events (cases_by_id persisted) [] events
  found ← collect_entries indexed (cases_by_id persisted)
  let entries = sorted sequence_before found
  assert_contiguous 1 entries
  ok (record { audit_entries = entries; next_resolution_sequence = length entries + 1 })
