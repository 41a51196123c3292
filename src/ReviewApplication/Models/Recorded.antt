-- ===== src/ReviewApplication/Models/Recorded.antt =====
-- The event of a resolution: what it is made of, what it is read as, and that it tells the story of the
-- case that the workflow resolved.
use ai_data_quality_platform.Base.{
  ℕ, String, true, Option, none, some, nat_eq, ok, ◌>>=◌, returned-bind, ok-injective, ◌≡◌, refl,
  ap, ◌∙◌, arith, eq_refl,
}
use ai_data_quality_platform.HumanReview.Models.{
  HumanReviewDecision, human_decision_value, ReviewAuditEntry, ReviewCase, ReviewWorkflowState,
}
use ai_data_quality_platform.HumanReview.Workflow.{
  status_for_decision, resolution_of, resolved_case, audit_entry_of,
}
use ai_data_quality_platform.HumanReview.Workflow.Transitions.{resolved_case-settled}
use ai_data_quality_platform.ReviewApplication.Errors.{review_event_integrity}
use ai_data_quality_platform.ReviewApplication.Payload.{to_dict, audit_entry_from_payload-to_dict}
use ai_data_quality_platform.ReviewApplication.Models.{
  event_type_eq, is_resolution_type, event_type_of, status_is_type, decision_from_value,
  ReviewEvent, require_text, review_event, validate_by_type, from_audit_entry,
}
use ai_data_quality_platform.ReviewApplication.History.{
  optional_text_eq, assert_event_agrees_with_case, entry_of, entry_from_payload,
}
use ai_data_quality_platform.ReviewApplication.History.Extension.{IsResolution}

-- The event of an audit entry.
abbrev pub event_of : ReviewAuditEntry → HumanReviewDecision → String → ReviewEvent
event_of entry decision occurred_at = record {
  review_case_id = entry.review_case_id;
  event_type = event_type_of decision;
  occurred_at_utc = occurred_at;
  schema_version = none;
  event_id = none;
  resolution_sequence = some entry.resolution_sequence;
  reviewer_id = entry.reviewer_id;
  audit_entry_payload = some (to_dict entry);
  suggestion_id = none;
}

decision_from_value-value :
    (d : HumanReviewDecision) → decision_from_value (human_decision_value d) ≡ some d
unfolding decision_from_value human_decision_value
decision_from_value-value HumanReviewDecision.match = refl
decision_from_value-value HumanReviewDecision.no_match = refl
decision_from_value-value HumanReviewDecision.defer = refl

-- An event that passes the checks is returned as it is.
pub review_event-same :
    (strip : String → String) (event event' : ReviewEvent)
    → review_event strip event ≡ ok event'
    → event ≡ event'
unfolding review_event
review_event-same strip event event' h =
    let (u, h1, e1) =
      returned-bind (require_text strip review_event_integrity event.review_case_id) _ h in
    let (v, h2, e2) =
      returned-bind (require_text strip review_event_integrity event.occurred_at_utc) _ h1 in
    let (w, h3, e3) =
      returned-bind _ (λ _. validate_by_type strip event.event_type event >>= λ _. ok event) h2 in
    let (x, h4, e4) = returned-bind (validate_by_type strip event.event_type event) _ h3 in
    ok-injective h4

pub from_audit_entry-event :
    (strip : String → String) (entry : ReviewAuditEntry) (d : HumanReviewDecision)
    (occurred_at : String) (event : ReviewEvent)
    → entry.human_decision ≡ human_decision_value d
    → from_audit_entry strip entry occurred_at ≡ ok event
    → event_of entry d occurred_at ≡ event
unfolding from_audit_entry
from_audit_entry-event strip entry d occurred_at event decided h =
    let known : decision_from_value entry.human_decision ≡ some d =
      ap decision_from_value decided ∙ decision_from_value-value d in
    review_event-same strip (event_of entry d occurred_at) event (rw known at h)

resolution-type : (d : HumanReviewDecision) → is_resolution_type (event_type_of d) ≡ true
unfolding event_type_of
resolution-type HumanReviewDecision.match = refl
resolution-type HumanReviewDecision.no_match = refl
resolution-type HumanReviewDecision.defer = refl

status-type :
    (d : HumanReviewDecision) → status_is_type (status_for_decision d) (event_type_of d) ≡ true
unfolding event_type_of status_for_decision
status-type HumanReviewDecision.match = refl
status-type HumanReviewDecision.no_match = refl
status-type HumanReviewDecision.defer = refl

event_type_eq_refl :
    (d : HumanReviewDecision) → event_type_eq (event_type_of d) (event_type_of d) ≡ true
unfolding event_type_of
event_type_eq_refl HumanReviewDecision.match = refl
event_type_eq_refl HumanReviewDecision.no_match = refl
event_type_eq_refl HumanReviewDecision.defer = refl

optional_text_eq_refl : (value : Option String) → optional_text_eq value value ≡ true
optional_text_eq_refl none = refl
optional_text_eq_refl (some value) = eq_refl value

nat_eq_refl : (n : ℕ) → nat_eq n n ≡ true
nat_eq_refl n = ground arith

module _ (s : ReviewWorkflowState) (c : ReviewCase) (d : HumanReviewDecision)
    (reviewer : Option String) (occurred_at : String) (schema : Option String) (id : Option ℕ) where
  -- The event as it is read back, with its id and schema version.
  abbrev pub read_event : ReviewEvent
  read_event = record (event_of (audit_entry_of s c d reviewer) d occurred_at) {
    schema_version = schema;
    event_id = id;
  }

  read_event-agrees :
      assert_event_agrees_with_case read_event (resolved_case s c d reviewer) ≡ ok tt
  unfolding assert_event_agrees_with_case resolved_case resolution_of audit_entry_of
  read_event-agrees =
      rw
        (
          status-type d,
          nat_eq_refl s.next_resolution_sequence,
          optional_text_eq_refl reviewer,
          event_type_eq_refl d,
        )
        refl

  read_event-made :
      entry_of (resolved_case s c d reviewer) (some read_event) ≡ ok (audit_entry_of s c d reviewer)
  unfolding entry_of entry_from_payload resolved_case audit_entry_of to_dict
  read_event-made =
      rw
        (
          audit_entry_from_payload-to_dict (audit_entry_of s c d reviewer),
          eq_refl c.pair.record_a_id,
          eq_refl c.pair.record_b_id,
        )
        refl

  pub read_event-IsResolution :
      IsResolution c.review_case_id read_event
        (resolved_case s c d reviewer)
        (audit_entry_of s c d reviewer)
  unfolding audit_entry_of
  read_event-IsResolution = record {
    settled = resolved_case-settled s c d reviewer;
    of_case = refl;
    resolution = resolution-type d;
    agrees = read_event-agrees;
    made = read_event-made;
  }
