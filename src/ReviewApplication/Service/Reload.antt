-- ===== src/ReviewApplication/Service/Reload.antt =====
-- What a queue loads after a resolution was written to it.
use ai_data_quality_platform.Base.{
  ℕ, ◌+◌, String, true, not, Option, some, [], ◌∷◌, ◌++◌, ◌==◌, ltb, map, ok, raise_if,
  returned-bind, ok-injective, ◌≡◌, refl, sym, ap, ◌∙◌, subst, arith,
}
use ai_data_quality_platform.Base.Assoc.{lookup, insert, keys}
use ai_data_quality_platform.Base.AllOf.{AllOf, AllOf-weaken}
use ai_data_quality_platform.HumanReview.Models.{
  ReviewStatus, HumanReviewDecision, status_eq, ReviewAuditEntry, ReviewCase, ReviewWorkflowState,
  find_case,
}
use ai_data_quality_platform.HumanReview.Workflow.{resolution_of, resolved_case, audit_entry_of}
use ai_data_quality_platform.HumanReview.Workflow.Invariant.{AreDistinct}
use ai_data_quality_platform.ReviewApplication.Errors.{persisted_case_integrity}
use ai_data_quality_platform.ReviewApplication.Models.{
  PersistedCase, ReviewEvent, require_text, persisted_case, with_case,
}
use ai_data_quality_platform.ReviewApplication.Models.Recorded.{event_of, review_event-same}
use ai_data_quality_platform.ReviewApplication.Bundle.{
  WorkflowBundle, case_ids, cases_in, assert_unique_cases,
}
use ai_data_quality_platform.ReviewApplication.Bundle.Distinct.{
  assert_unique_cases-AreDistinct, pairs_of, keys-pairs_of, lookup-pairs_of, cases_by_id-pairs_of,
}
use ai_data_quality_platform.ReviewApplication.History.{
  ReconstructedHistory, cases_by_id, reconstruct_history,
}
use ai_data_quality_platform.ReviewApplication.History.Extension.{
  IsResolution, reconstruct_history-extended,
}
use ai_data_quality_platform.ReviewPersistence.Rows.{
  StorageTools, EventRow, resolution_from_payload, row_of_event, event_to_row, row_to_review_event,
  database_schema_version,
}
use ai_data_quality_platform.ReviewPersistence.Rows.Reading.{Succeeds, updated_case, updated_row}
use ai_data_quality_platform.ReviewPersistence.Tables.{
  ContextRow, ReviewStore, cas_applies, cas_update,
}
use ai_data_quality_platform.ReviewPersistence.Repository.{fetchone}
use ai_data_quality_platform.ReviewPersistence.Repository.Loading.{
  update_cases, assert_unique_cases-update_cases, assert_record_coverage-update_cases,
}
use ai_data_quality_platform.ReviewPersistence.Repository.Selecting.{
  select_cases-changed, select_events-appended,
}
use ai_data_quality_platform.ReviewPersistence.Repository.Validity.{StoreIsValid}
use ai_data_quality_platform.ReviewPersistence.Repository.Calls.{bundle_of, Loaded}
use ai_data_quality_platform.ReviewPersistence.Repository.Holding.{pairs_of-update_cases}

-- A case that advanced has a time, and is the case that it advanced to.
pub with_case-advanced :
    (strip : String → String) (p : PersistedCase) (c : ReviewCase) (now : String)
    (q : PersistedCase)
    → with_case strip p c now ≡ ok q
    → (require_text strip persisted_case_integrity now ≡ ok tt) × (q ≡ updated_case c now p)
unfolding with_case persisted_case
with_case-advanced strip p c now q h =
    let (u, h1, e1) =
      returned-bind
        (raise_if (not (c.review_case_id == p.case.review_case_id)) persisted_case_integrity) _ h in
    let (v, h2, e2) =
      returned-bind (raise_if (ltb (p.version + 1) 1) persisted_case_integrity) _ h1 in
    let (w, h3, e3) =
      returned-bind (require_text strip persisted_case_integrity p.created_at_utc) _ h2 in
    let (x, h4, e4) = returned-bind (require_text strip persisted_case_integrity now) _ h3 in
    let (y, h5, e5) =
      returned-bind (require_text strip persisted_case_integrity c.review_case_id) _ h4 in
    (e4, sym (ok-injective h5))

pub resolved_case-Succeeds :
    (s : ReviewWorkflowState) (c : ReviewCase) (d : HumanReviewDecision) (reviewer : Option String)
    → Succeeds c (resolved_case s c d reviewer)
unfolding resolved_case resolution_of resolution_from_payload
resolved_case-Succeeds s c d reviewer = record {
  same_id = refl;
  same_pair = refl;
  same_ids = refl;
  same_score = refl;
  own_resolution = refl;
}

pub event_to_row-row :
    (entry : ReviewAuditEntry) (d : HumanReviewDecision) (now queue : String) (id : ℕ)
    (row : EventRow)
    → event_to_row (event_of entry d now) queue id ≡ ok row
    → row_of_event (event_of entry d now) queue id ≡ row
unfolding event_to_row
event_to_row-row entry d now queue id row h = ok-injective h

-- The row of an event is read as the event with its id and schema version.
pub row_of_event-read :
    (tools : StorageTools) (entry : ReviewAuditEntry) (d : HumanReviewDecision) (now queue : String)
    (id : ℕ) (event : ReviewEvent)
    → row_to_review_event tools (row_of_event (event_of entry d now) queue id) ≡ ok event
    → record (event_of entry d now) {
      schema_version = some database_schema_version;
      event_id = some id;
    }
      ≡ event
unfolding row_to_review_event row_of_event
row_of_event-read tools entry d now queue id event h = review_event-same tools.strip _ event h

module _ (tools : StorageTools) (queue case_id : String) (version : ℕ) (now : String)
    (store store' : ReviewStore) (bundle : WorkflowBundle) (s : ReviewWorkflowState)
    (was : ReviewCase) (d : HumanReviewDecision) (reviewer : Option String) (p : PersistedCase)
    (l : Loaded tools queue store bundle) (v : StoreIsValid tools store)
    (found : find_case case_id (cases_in l.persisted) ≡ some was)
    (named : was.review_case_id ≡ case_id)
    (pending : status_eq was.status ReviewStatus.pending ≡ true)
    (next : s.next_resolution_sequence ≡ l.history.next_resolution_sequence)
    (timely : require_text tools.strip persisted_case_integrity now ≡ ok tt)
    (fits : AllOf
      (λ (q : PersistedCase).
        q.case.review_case_id ≡ case_id → (q.case ≡ was) × (q.version ≡ version))
      l.persisted) where
  abbrev after : ReviewCase
  after = resolved_case s was d reviewer

  abbrev entry : ReviewAuditEntry
  entry = audit_entry_of s was d reviewer

  succeeds : Succeeds was after
  succeeds = resolved_case-Succeeds s was d reviewer

  distinct : AreDistinct (case_ids l.persisted)
  distinct = assert_unique_cases-AreDistinct l.persisted l.unique

  indexes : cases_by_id l.persisted ≡ pairs_of l.persisted
  indexes = cases_by_id-pairs_of l.persisted distinct

  holds : AllOf (λ (q : PersistedCase). q.case.review_case_id ≡ case_id → q.case ≡ was) l.persisted
  holds = AllOf-weaken _ _ l.persisted (λ q fit e. (fit e).0) fits

  unique_after : assert_unique_cases [] (update_cases case_id after now l.persisted) ≡ ok tt
  unique_after =
      assert_unique_cases-update_cases case_id was after now succeeds [] l.persisted holds
      ∙ l.unique

  changed :
      cases_by_id (update_cases case_id after now l.persisted)
      ≡ insert case_id after (cases_by_id l.persisted)
  changed =
      cases_by_id-pairs_of (update_cases case_id after now l.persisted)
        (assert_unique_cases-AreDistinct (update_cases case_id after now l.persisted) unique_after)
      ∙ pairs_of-update_cases case_id was after now succeeds l.persisted distinct found
      ∙ ap (insert case_id after) (sym indexes)

  abbrev pub history_after : ReconstructedHistory
  history_after = record {
    audit_entries = l.history.audit_entries ++ entry ∷ [];
    next_resolution_sequence = l.history.next_resolution_sequence + 1;
  }

  history-extended :
      (event : ReviewEvent)
      → IsResolution case_id event after entry
      → reconstruct_history (update_cases case_id after now l.persisted) (l.events ++ event ∷ [])
        ≡ ok history_after
  unfolding audit_entry_of
  history-extended event resolution =
      reconstruct_history-extended case_id was after event entry l.persisted
        (update_cases case_id after now l.persisted) l.events l.history
        (subst AreDistinct (sym (ap keys indexes ∙ keys-pairs_of l.persisted)) distinct)
        (ap (lookup case_id) indexes ∙ lookup-pairs_of case_id l.persisted ∙ found) pending changed
        resolution l.has_history next

  -- The bundle after a resolution: the case and the history have advanced, and nothing else.
  pub Loaded-resolved :
      (row : EventRow) (event : ReviewEvent)
      → store'.workflow_contexts ≡ store.workflow_contexts
      → store'.review_cases
        ≡ cas_update
            (cas_applies queue case_id version)
            (updated_row tools after now)
            store.review_cases
      → store'.review_case_events ≡ store.review_case_events ++ row ∷ []
      → (row.review_queue_id == queue) ≡ true
      → row.event_id ≡ store.next_event_id
      → row_to_review_event tools row ≡ ok event
      → IsResolution case_id event after entry
      → Loaded tools queue store'
          (bundle_of l.context (update_cases case_id after now l.persisted) history_after l.records)
  Loaded-resolved row event contexts cases events here id reads resolution = record {
    context = l.context;
    persisted = update_cases case_id after now l.persisted;
    events = l.events ++ event ∷ [];
    history = history_after;
    records = l.records;
    has_context =
        ap (fetchone (λ (r : ContextRow). r.review_queue_id == queue)) contexts ∙ l.has_context;
    has_cases =
        select_cases-changed tools queue case_id version was after now succeeds timely store store'
          l.persisted v.stored l.has_cases fits cases;
    has_events =
        select_events-appended tools queue store store' row l.events event l.has_events reads here
          id v.fresh events;
    has_history = history-extended event resolution;
    has_records = l.has_records;
    positive = ground arith;
    unique = unique_after;
    covered =
        assert_record_coverage-update_cases case_id was after now succeeds
          (map (λ r. r.record_id) l.records) l.persisted holds
        ∙ l.covered;
    value = refl;
  }
