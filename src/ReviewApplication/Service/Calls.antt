-- ===== src/ReviewApplication/Service/Calls.antt =====
-- What a call of `ReviewQueueService.resolve_case` that succeeded went through.
use ai_data_quality_platform.Base.{
  ℕ, String, false, not, Option, none, some, List, ◌==◌, nat_eq, Result, ok, err, raise_if-false,
  or_raise, returned-bind, ok-injective, ◌≡◌, sym, ap, ◌∙◌, subst, arith,
}
use ai_data_quality_platform.Base.Assoc.{Dict}
use ai_data_quality_platform.EntityResolution.Models.{EntityResolutionConfig}
use ai_data_quality_platform.EntityResolution.Conflicts.{TextTools}
use ai_data_quality_platform.HumanReview.Models.{
  HumanReviewDecision, ReviewAuditEntry, ReviewCase, ReviewWorkflowState, case_by_id,
}
use ai_data_quality_platform.HumanReview.Errors.{HumanReviewError}
use ai_data_quality_platform.HumanReview.Workflow.{ReviewContext, resolve_case as resolve}
use ai_data_quality_platform.ReviewApplication.Errors.{from_workflow, review_event_integrity}
use ai_data_quality_platform.ReviewApplication.Models.{PersistedCase, ReviewEvent, from_audit_entry}
use ai_data_quality_platform.ReviewApplication.Bundle.{WorkflowBundle, to_workflow_state}
use ai_data_quality_platform.ReviewPersistence.Rows.{StorageTools}
use ai_data_quality_platform.ReviewPersistence.Tables.{ReviewStore}
use ai_data_quality_platform.ReviewPersistence.Repository.{
  fetchone, load_workflow_bundle, apply_resolution, list_events,
}
use ai_data_quality_platform.ReviewApplication.Service.{
  ReviewResolutionResult, locate, write_resolution, assert_not_stale, appended_audit_entry,
  authorization_context, require_persisted_event, resolve_through_domain, resolve_case,
}

or_raise-some {ℓ κ} :
    {E : Type ℓ} {A : Type κ} (found : Option A) (raised : E) (value : A)
    → or_raise found raised ≡ ok value
    → found ≡ some value
or_raise-some none raised value h = cc
or_raise-some (some a) raised value h = ap some (ok-injective h)

from_workflow-ok {ℓ} :
    {A : Type ℓ} (answer : Result HumanReviewError A) (value : A)
    → from_workflow answer ≡ ok value
    → answer ≡ ok value
from_workflow-ok (ok a) value h = ap ok (ok-injective h)
from_workflow-ok (err e) value h = cc

same_version : (m n : ℕ) → not (nat_eq m n) ≡ false → m ≡ n
same_version m n h = ground arith

assert_not_stale-current :
    (persisted : PersistedCase) (version : ℕ)
    → assert_not_stale persisted version ≡ ok tt
    → persisted.version ≡ version
unfolding assert_not_stale
assert_not_stale-current persisted version h =
    same_version persisted.version version (raise_if-false _ _ h)

module _ (tools : StorageTools) (queue case_id : String) (version : ℕ) (now : String)
    (store : ReviewStore) where
  -- What was written, from the state of the workflow on.
  pub record Wrote (state : ReviewWorkflowState) (result : ReviewResolutionResult)
      (store' : ReviewStore) : Type 0 where
    pub updated : ReviewCase
    pub event : ReviewEvent
    pub events : List ReviewEvent
    pub appends : appended_audit_entry state case_id ≡ ok result.audit_entry
    pub finds : case_by_id state case_id ≡ some updated
    pub projects : from_audit_entry tools.strip result.audit_entry now ≡ ok event
    pub applies :
        apply_resolution tools queue updated version event now store
        ≡ ok (result.persisted_case, store')
    pub lists : list_events tools queue case_id store' ≡ ok events
    pub same_state : state ≡ result.workflow_state

  module _ (state : ReviewWorkflowState) (entry : ReviewAuditEntry) (updated : ReviewCase)
      (event : ReviewEvent) (appends : appended_audit_entry state case_id ≡ ok entry)
      (finds : case_by_id state case_id ≡ some updated)
      (projects : from_audit_entry tools.strip entry now ≡ ok event) where
    Wrote-last :
        (applied : PersistedCase × ReviewStore) (durable : ReviewEvent) (events : List ReviewEvent)
        (result : ReviewResolutionResult) (store' : ReviewStore)
        → apply_resolution tools queue updated version event now store ≡ ok applied
        → list_events tools queue case_id applied.1 ≡ ok events
        → record {
          persisted_case = applied.0;
          audit_entry = entry;
          event = durable;
          workflow_state = state;
        }
          ≡ result
        → applied.1 ≡ store'
        → Wrote state result store'
    Wrote-last applied durable events result store' applies lists same same_store = record {
      updated = updated;
      event = event;
      events = events;
      appends = appends ∙ ap (λ w. ok w.audit_entry) same;
      finds = finds;
      projects = ap (λ w. from_audit_entry tools.strip w.audit_entry now) (sym same) ∙ projects;
      applies =
          applies
          ∙ ap (λ w. ok (w, applied.1)) (ap (λ w. w.persisted_case) same)
          ∙ ap (λ w. ok (result.persisted_case, w)) same_store;
      lists = ap (λ w. list_events tools queue case_id w) (sym same_store) ∙ lists;
      same_state = ap (λ w. w.workflow_state) same;
    }

  write_resolution-Wrote :
      (state : ReviewWorkflowState) (result : ReviewResolutionResult) (store' : ReviewStore)
      → write_resolution tools queue case_id version now store state ≡ ok (result, store')
      → Wrote state result store'
  unfolding write_resolution require_persisted_event
  write_resolution-Wrote state result store' h =
      let (entry, h1, appends) = returned-bind (appended_audit_entry state case_id) _ h in
      let (updated, h2, finds) =
        returned-bind (or_raise (case_by_id state case_id) review_event_integrity) _ h1 in
      let (event, h3, projects) = returned-bind (from_audit_entry tools.strip entry now) _ h2 in
      let (applied, h4, applies) =
        returned-bind (apply_resolution tools queue updated version event now store) _ h3 in
      let (durable, h5, requires) =
        returned-bind (require_persisted_event tools queue case_id event applied.1) _ h4 in
      let (events, h6, lists) =
        returned-bind (list_events tools queue case_id applied.1) _ requires in
      Wrote-last state entry updated event appends (or_raise-some _ _ updated finds) projects
        applied durable events result store' applies lists (ap (λ w. w.0) (ok-injective h5))
        (ap (λ w. w.1) (ok-injective h5))

module _ (texts : TextTools) (tools : StorageTools) (queue : String)
    (cached : Dict EntityResolutionConfig) (load : String → Option EntityResolutionConfig) where
  pub record Ran (case_id : String) (d : HumanReviewDecision) (reviewer : Option String)
      (version : ℕ) (now : String) (store : ReviewStore) (result : ReviewResolutionResult)
      (store' : ReviewStore) : Type 0 where
    pub bundle : WorkflowBundle
    pub persisted : PersistedCase
    pub context : ReviewContext
    pub loads : load_workflow_bundle tools queue store ≡ ok bundle
    pub located :
        fetchone (λ (p : PersistedCase). p.case.review_case_id == case_id) bundle.persisted_cases
        ≡ some persisted
    pub current : persisted.version ≡ version
    pub authorizes : authorization_context cached load bundle d ≡ ok context
    pub decides :
        resolve texts (to_workflow_state bundle) case_id d reviewer context
        ≡ ok result.workflow_state
    pub wrote : Wrote tools queue case_id version now store result.workflow_state result store'

  pub resolve_case-Ran :
      (case_id : String) (d : HumanReviewDecision) (reviewer : Option String) (version : ℕ)
      (now : String) (store : ReviewStore) (result : ReviewResolutionResult) (store' : ReviewStore)
      → resolve_case texts tools queue cached load case_id d reviewer version now store
        ≡ ok (result, store')
      → Ran case_id d reviewer version now store result store'
  unfolding resolve_case locate resolve_through_domain
  resolve_case-Ran case_id d reviewer version now store result store' h =
      let (bundle, h1, loads) = returned-bind (load_workflow_bundle tools queue store) _ h in
      let (persisted, h2, located) = returned-bind (locate bundle case_id) _ h1 in
      let (u, h3, current) = returned-bind (assert_not_stale persisted version) _ h2 in
      let (state, h4, resolved) =
        returned-bind (resolve_through_domain texts cached load bundle case_id d reviewer) _ h3 in
      let (context, h5, authorizes) =
        returned-bind (authorization_context cached load bundle d) _ resolved in
      let w : Wrote tools queue case_id version now store state result store' =
        write_resolution-Wrote tools queue case_id version now store state result store' h4 in
      record {
        bundle = bundle;
        persisted = persisted;
        context = context;
        loads = loads;
        located = or_raise-some _ _ persisted located;
        current = assert_not_stale-current persisted version current;
        authorizes = authorizes;
        decides = from_workflow-ok _ state h5 ∙ ap ok w.same_state;
        wrote =
            subst (λ x. Wrote tools queue case_id version now store x result store') w.same_state w;
      }
