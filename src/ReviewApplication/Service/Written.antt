-- ===== src/ReviewApplication/Service/Written.antt =====
-- What a resolution writes, and the bundle that the queue loads after it.
use ai_data_quality_platform.Base.{
  ℕ, ◌+◌, String, true, not, Option, some, List, [], ◌∷◌, ◌++◌, ◌==◌, ok, returned-bind,
  ok-injective, some-injective, ◌≡◌, refl, sym, ap, ◌∙◌, subst, eq_iff, eq_refl, text_eq, raise_if,
}
use ai_data_quality_platform.Base.AllOf.{AllOf}
use ai_data_quality_platform.EntityResolution.Conflicts.{TextTools}
use ai_data_quality_platform.HumanReview.Models.{
  HumanReviewDecision, ReviewAuditEntry, ReviewCase, ReviewWorkflowState, case_by_id, find_case,
}
use ai_data_quality_platform.HumanReview.Workflow.{
  ReviewContext, resolved_case, audit_entry_of, replace_case, record_decision,
  resolve_case as resolve,
}
use ai_data_quality_platform.HumanReview.Workflow.Invariant.{find_case-id}
use ai_data_quality_platform.HumanReview.Workflow.Transitions.{Resolved, find_case-resolve_case}
use ai_data_quality_platform.ReviewApplication.Errors.{review_event_integrity}
use ai_data_quality_platform.ReviewApplication.Models.{PersistedCase, ReviewEvent, from_audit_entry}
use ai_data_quality_platform.ReviewApplication.Models.Recorded.{
  event_of, from_audit_entry-event, read_event, read_event-IsResolution,
}
use ai_data_quality_platform.ReviewApplication.History.Extension.{IsResolution}
use ai_data_quality_platform.ReviewApplication.Bundle.{WorkflowBundle, cases_in, to_workflow_state}
use ai_data_quality_platform.ReviewPersistence.Rows.{
  StorageTools, row_of_event, row_to_review_event, database_schema_version,
}
use ai_data_quality_platform.ReviewPersistence.Rows.Reading.{IsStored, updated_row}
use ai_data_quality_platform.ReviewPersistence.Tables.{ReviewStore, cas_applies, cas_update}
use ai_data_quality_platform.ReviewPersistence.Repository.{fetchone, apply_resolution}
use ai_data_quality_platform.ReviewPersistence.Repository.Loading.{
  update_cases, cases_in-update_cases,
}
use ai_data_quality_platform.ReviewPersistence.Repository.Selecting.{list_events-last}
use ai_data_quality_platform.ReviewPersistence.Repository.Calls.{bundle_of, Loaded}
use ai_data_quality_platform.ReviewPersistence.Repository.Applying.{
  Applied, apply_resolution-Applied,
}
use ai_data_quality_platform.ReviewPersistence.Repository.Validity.{StoreIsValid}
use ai_data_quality_platform.ReviewPersistence.Repository.Holding.{
  is_named, fetchone-holds, fetchone-find_case,
}
use ai_data_quality_platform.ReviewApplication.Bundle.Distinct.{assert_unique_cases-AreDistinct}
use ai_data_quality_platform.ReviewApplication.Service.{
  ReviewResolutionResult, last, appended_audit_entry,
}
use ai_data_quality_platform.ReviewApplication.Service.Calls.{Wrote}
use ai_data_quality_platform.ReviewApplication.Service.Reload.{
  with_case-advanced, resolved_case-Succeeds, event_to_row-row, row_of_event-read, Loaded-resolved,
}
use ai_data_quality_platform.ReviewApplication.Service.Validity.{
  IsCanonical, select_cases-IsCanonical, AllOf-fetchone, Succeeds-IsCanonical, cas_update-IsStored,
  HasFreshId-appended,
}

last-append {ℓ} : {A : Type ℓ} (xs : List A) (x : A) → last (xs ++ x ∷ []) ≡ some x
unfolding last
last-append [] x = refl
last-append (y ∷ []) x = refl
last-append (y ∷ z ∷ zs) x = last-append (z ∷ zs) x

appended-entry :
    (s : ReviewWorkflowState) (case_id : String) (c : ReviewCase) (d : HumanReviewDecision)
    (reviewer : Option String) (entry : ReviewAuditEntry)
    → appended_audit_entry (record_decision s case_id c d reviewer) case_id ≡ ok entry
    → audit_entry_of s c d reviewer ≡ entry
unfolding appended_audit_entry record_decision
appended-entry s case_id c d reviewer entry h =
    let at_end : last (s.audit_trail ++ audit_entry_of s c d reviewer ∷ [])
        ≡ some (audit_entry_of s c d reviewer) =
      last-append s.audit_trail (audit_entry_of s c d reviewer) in
    let (u, h1, e1) =
      returned-bind
        (raise_if (not ((audit_entry_of s c d reviewer).review_case_id == case_id))
          review_event_integrity)
        (λ _. ok (audit_entry_of s c d reviewer)) (rw at_end at h) in
    ok-injective h1

module _ (texts : TextTools) (tools : StorageTools) (queue case_id : String)
    (d : HumanReviewDecision) (reviewer : Option String) (version : ℕ) (now : String)
    (store : ReviewStore) (result : ReviewResolutionResult) (store' : ReviewStore)
    (bundle : WorkflowBundle) (context : ReviewContext) (p : PersistedCase)
    (l : Loaded tools queue store bundle) (v : StoreIsValid tools store)
    (decides : resolve texts (to_workflow_state bundle) case_id d reviewer context
      ≡ ok result.workflow_state)
    (dom : Resolved texts
      (to_workflow_state bundle)
      case_id
      d
      reviewer
      context
      result.workflow_state)
    (w : Wrote tools queue case_id version now store result.workflow_state result store')
    (located : fetchone (is_named case_id) l.persisted ≡ some p)
    (current : p.version ≡ version) where
  abbrev pub s : ReviewWorkflowState
  s = to_workflow_state bundle

  abbrev pub after : ReviewCase
  after = resolved_case s dom.was d reviewer

  abbrev pub entry : ReviewAuditEntry
  entry = audit_entry_of s dom.was d reviewer

  loaded_cases : s.cases ≡ cases_in l.persisted
  unfolding to_workflow_state
  loaded_cases = ap (λ b. cases_in b.persisted_cases) l.value

  found : find_case case_id (cases_in l.persisted) ≡ some dom.was
  found = ap (find_case case_id) (sym loaded_cases) ∙ dom.found

  named : dom.was.review_case_id ≡ case_id
  named = find_case-id case_id s.cases dom.was dom.found

  updated-after : w.updated ≡ after
  unfolding case_by_id
  updated-after =
      let (was, found_was, now_found, others) =
        find_case-resolve_case texts s case_id d reviewer context result.workflow_state decides in
      let same : was ≡ dom.was = some-injective (sym found_was ∙ dom.found) in
      some-injective (sym w.finds ∙ now_found) ∙ ap (λ c. resolved_case s c d reviewer) same

  entry-result : entry ≡ result.audit_entry
  entry-result =
      appended-entry s case_id dom.was d reviewer result.audit_entry
        (ap (λ x. appended_audit_entry x case_id) (sym dom.recorded) ∙ w.appends)

  event-written : event_of entry d now ≡ w.event
  unfolding audit_entry_of
  event-written =
      from_audit_entry-event tools.strip entry d now w.event refl
        (ap (λ x. from_audit_entry tools.strip x now) entry-result ∙ w.projects)

  applied :
      Applied tools queue after version
        (event_of entry d now)
        now
        store
        result.persisted_case
        store'
  applied =
      apply_resolution-Applied tools queue after version (event_of entry d now) now store
        result.persisted_case store'
        (ap (λ x. apply_resolution tools queue x version (event_of entry d now) now store)
            (sym updated-after)
          ∙ ap (λ x. apply_resolution tools queue w.updated version x now store) event-written
          ∙ w.applies)

  row-written : row_of_event (event_of entry d now) queue store.next_event_id ≡ applied.row
  row-written = event_to_row-row entry d now queue store.next_event_id applied.row applied.written

  row_queue : (applied.row.review_queue_id == queue) ≡ true
  unfolding row_of_event
  row_queue = ap (λ r. r.review_queue_id == queue) (sym row-written) ∙ eq_refl queue

  row_case : (applied.row.review_case_id == case_id) ≡ true
  unfolding row_of_event audit_entry_of
  row_case =
      ap (λ r. r.review_case_id == case_id) (sym row-written)
      ∙ (eq_iff dom.was.review_case_id case_id).1 named

  row_id : applied.row.event_id ≡ store.next_event_id
  unfolding row_of_event
  row_id = ap (λ r. r.event_id) (sym row-written)

  -- The event that was written is read as the event of this resolution.
  row-reads :
      (event : ReviewEvent) × (row_to_review_event tools applied.row ≡ ok event)
      × IsResolution case_id event after entry
  row-reads =
      let (event, reads) =
        list_events-last tools queue case_id store store' applied.row w.events row_queue row_case
          row_id v.fresh applied.events_after w.lists in
      let same : read_event s dom.was d reviewer now (some database_schema_version)
            (some store.next_event_id)
          ≡ event =
        row_of_event-read tools entry d now queue store.next_event_id event
          (ap (row_to_review_event tools) row-written ∙ reads) in
      (
        event,
        reads,
        subst (λ x. IsResolution x event after entry) named
            (subst (λ x. IsResolution dom.was.review_case_id x after entry) same
              (read_event-IsResolution s dom.was d reviewer now (some database_schema_version)
                (some store.next_event_id))),
      )

  held : p.case ≡ dom.was
  held = fetchone-find_case case_id l.persisted p dom.was located found

  fits :
      AllOf
        (λ (q : PersistedCase).
          q.case.review_case_id ≡ case_id → (q.case ≡ dom.was) × (q.version ≡ version))
        l.persisted
  fits =
      fetchone-holds case_id (λ q. (q.case ≡ dom.was) × (q.version ≡ version)) l.persisted p
        (assert_unique_cases-AreDistinct l.persisted l.unique) located (held, current)

  cases_written :
      store'.review_cases
      ≡ cas_update
          (cas_applies queue case_id version)
          (updated_row tools after now)
          store.review_cases
  unfolding resolved_case
  cases_written =
      applied.cases_after
      ∙ ap
          (λ x.
            cas_update (cas_applies queue x version) (updated_row tools after now)
              store.review_cases)
          named

  abbrev pub bundle_after : WorkflowBundle
  bundle_after =
      bundle_of l.context (update_cases case_id after now l.persisted)
        (record {
          audit_entries = l.history.audit_entries ++ entry ∷ [];
          next_resolution_sequence = l.history.next_resolution_sequence + 1;
        })
        l.records

  loaded_next : s.next_resolution_sequence ≡ l.history.next_resolution_sequence
  unfolding to_workflow_state
  loaded_next = ap (λ b. b.next_resolution_sequence) l.value

  pub reloaded : Loaded tools queue store' bundle_after
  reloaded =
      let (event, reads, resolution) = row-reads in
      Loaded-resolved tools queue case_id version now store store' bundle s dom.was d reviewer p l v
        found named dom.pending loaded_next
        (with_case-advanced tools.strip applied.stored after now result.persisted_case
          applied.advanced).0
        fits applied.row event applied.contexts_after cases_written applied.events_after row_queue
        row_id reads resolution

  loaded_trail : s.audit_trail ≡ l.history.audit_entries
  unfolding to_workflow_state
  loaded_trail = ap (λ b. b.audit_entries) l.value

  same_cases :
      cases_in (update_cases case_id after now l.persisted) ≡ replace_case case_id after s.cases
  same_cases =
      cases_in-update_cases case_id after now l.persisted
      ∙ ap (replace_case case_id after) (sym loaded_cases)

  pub state-agrees : to_workflow_state bundle_after ≡ result.workflow_state
  unfolding to_workflow_state record_decision
  state-agrees =
      let new : ReviewWorkflowState = record_decision s case_id dom.was d reviewer in
      ap
        (λ x. record new {
          cases = x;
          audit_trail = l.history.audit_entries ++ entry ∷ [];
          next_resolution_sequence = l.history.next_resolution_sequence + 1;
        })
        same_cases
      ∙ ap
          (λ x. record new {
            audit_trail = x ++ entry ∷ [];
            next_resolution_sequence = l.history.next_resolution_sequence + 1;
          })
          (sym loaded_trail)
      ∙ ap (λ x. record new { next_resolution_sequence = x + 1 }) (sym loaded_next)
      ∙ sym dom.recorded

  pub version_returned : result.persisted_case.version ≡ version + 1
  version_returned =
      ap (λ q. q.version)
        (with_case-advanced tools.strip applied.stored after now result.persisted_case
          applied.advanced).1
      ∙ ap (λ n. n + 1) applied.at_version

  pub store-valid : StoreIsValid tools store'
  store-valid =
      let canonical : IsCanonical tools p.case =
        AllOf-fetchone (λ q. IsCanonical tools q.case) (is_named case_id) l.persisted p
          (select_cases-IsCanonical tools queue store l.persisted v.stored l.has_cases) located in
      record {
        stored = subst (AllOf (IsStored tools)) (sym cases_written) (
            cas_update-IsStored tools after now (cas_applies queue case_id version)
              store.review_cases
              (Succeeds-IsCanonical tools dom.was after
                (resolved_case-Succeeds s dom.was d reviewer)
                (subst (IsCanonical tools) held canonical))
              v.stored);
        fresh =
            HasFreshId-appended store store' applied.row v.fresh row_id applied.events_after
              applied.next_after;
      }
