-- ===== src/ReviewApplication/Payload.antt =====
-- The audit entry as the dictionary that history stores: `ReviewAuditEntry.to_dict` of
-- human_review/models.py and `audit_entry_from_payload` of review_application/history.py. A value is
-- one of those that such a dictionary holds; one of another type than its field is refused here.
use ai_data_quality_platform.Base.{
  ℕ, String, Option, none, some, List, [], ◌∷◌, Result, ok, err, ◌>>=◌, ◌>>◌, raise_if, not,
  contains, text_eq, all, ◌≡◌, refl,
}
use ai_data_quality_platform.Base.Assoc.{Dict, lookup, keys}
use ai_data_quality_platform.HumanReview.Models.{ReviewAuditEntry}
use ai_data_quality_platform.ReviewApplication.Errors.{
  ReviewApplicationError, review_event_integrity,
}

pub data Json : Type 0 where
  null : Json
  text : String → Json
  number : ℕ → Json

abbrev pub Payload : Type 0
Payload = Dict Json

abbrev optional_text : Option String → Json
optional_text none = null
optional_text (some value) = text value

-- `ReviewAuditEntry.to_dict`
unfoldable pub to_dict : ReviewAuditEntry → Payload
to_dict entry =
    ("review_case_id", text entry.review_case_id)
    ∷ ("record_a_id", text entry.record_a_id)
    ∷ ("record_b_id", text entry.record_b_id)
    ∷ ("machine_decision", text entry.machine_decision)
    ∷ ("machine_reason", text entry.machine_reason)
    ∷ ("human_decision", text entry.human_decision)
    ∷ ("reviewer_id", optional_text entry.reviewer_id)
    ∷ ("resolution_sequence", number entry.resolution_sequence)
    ∷ ("downstream_action", text entry.downstream_action)
    ∷ []

abbrev audit_entry_fields : List String
audit_entry_fields =
    "review_case_id" ∷ "record_a_id" ∷ "record_b_id" ∷ "machine_decision" ∷ "machine_reason"
    ∷ "human_decision" ∷ "reviewer_id" ∷ "resolution_sequence" ∷ "downstream_action" ∷ []

abbrev text_of : Option Json → Result ReviewApplicationError String
text_of (some (text value)) = ok value
text_of _ = err review_event_integrity

abbrev optional_text_of : Option Json → Result ReviewApplicationError (Option String)
optional_text_of (some null) = ok none
optional_text_of (some (text value)) = ok (some value)
optional_text_of _ = err review_event_integrity

abbrev number_of : Option Json → Result ReviewApplicationError ℕ
number_of (some (number value)) = ok value
number_of _ = err review_event_integrity

-- `ReviewAuditEntry(**payload)`: no field may be missing and no other may be there.
unfoldable pub audit_entry_from_payload : Payload → Result ReviewApplicationError ReviewAuditEntry
unfolding lookup keys
audit_entry_from_payload payload = do
  raise_if (not (all (λ name. contains name audit_entry_fields) (keys payload)))
      review_event_integrity
  review_case_id ← text_of (lookup "review_case_id" payload)
  record_a_id ← text_of (lookup "record_a_id" payload)
  record_b_id ← text_of (lookup "record_b_id" payload)
  machine_decision ← text_of (lookup "machine_decision" payload)
  machine_reason ← text_of (lookup "machine_reason" payload)
  human_decision ← text_of (lookup "human_decision" payload)
  reviewer_id ← optional_text_of (lookup "reviewer_id" payload)
  resolution_sequence ← number_of (lookup "resolution_sequence" payload)
  downstream_action ← text_of (lookup "downstream_action" payload)
  ok (record {
    review_case_id = review_case_id;
    record_a_id = record_a_id;
    record_b_id = record_b_id;
    machine_decision = machine_decision;
    machine_reason = machine_reason;
    human_decision = human_decision;
    reviewer_id = reviewer_id;
    resolution_sequence = resolution_sequence;
    downstream_action = downstream_action;
  })

optional_text-of :
    (value : Option String) → optional_text_of (some (optional_text value)) ≡ ok value
optional_text-of none = refl
optional_text-of (some value) = refl

-- What an entry was written to is read back as the same entry.
pub audit_entry_from_payload-to_dict :
    (entry : ReviewAuditEntry) → audit_entry_from_payload (to_dict entry) ≡ ok entry
unfolding audit_entry_from_payload to_dict
audit_entry_from_payload-to_dict entry = rw (optional_text-of entry.reviewer_id)
