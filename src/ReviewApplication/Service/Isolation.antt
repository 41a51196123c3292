-- ===== src/ReviewApplication/Service/Isolation.antt =====
-- A resolution in one queue changes nothing that another queue loads.
use ai_data_quality_platform.Base.{
  ℕ, String, Bool, true, false, Option, List, [], ◌∷◌, ◌++◌, ◌==◌, filter, sorted, ok, ◌≡◌, ◌≢◌,
  refl, sym, ap, ◌∙◌, arith, eq_iff, eq_false, text_eq,
}
use ai_data_quality_platform.Base.Assoc.{Dict}
use ai_data_quality_platform.Base.AllOf.{AllOf-weaken}
use ai_data_quality_platform.EntityResolution.Models.{EntityResolutionConfig}
use ai_data_quality_platform.EntityResolution.Conflicts.{TextTools}
use ai_data_quality_platform.HumanReview.Models.{HumanReviewDecision, ReviewStatus, ReviewCase}
use ai_data_quality_platform.ReviewApplication.Models.{ReviewEvent}
use ai_data_quality_platform.ReviewPersistence.Rows.{
  StorageTools, CaseRow, EventRow, row_of_event, event_to_row,
}
use ai_data_quality_platform.ReviewPersistence.Tables.{
  ReviewStore, in_queue, event_order, case_rows, event_rows, cas_applies, cas_row, cas_update,
}
use ai_data_quality_platform.ReviewPersistence.Tables.Updates.{
  case_rows-cas_update, cas_update-none,
}
use ai_data_quality_platform.ReviewPersistence.Repository.{
  select_cases, select_events, load_workflow_bundle,
}
use ai_data_quality_platform.ReviewPersistence.Repository.Selecting.{case_rows-here}
use ai_data_quality_platform.ReviewPersistence.Repository.Applying.{
  Applied, apply_resolution-Applied,
}
use ai_data_quality_platform.ReviewApplication.Service.{ReviewResolutionResult, resolve_case}
use ai_data_quality_platform.ReviewApplication.Service.Calls.{Ran, resolve_case-Ran}

event_to_row-queue :
    (event : ReviewEvent) (queue : String) (id : ℕ) (row : EventRow)
    → event_to_row event queue id ≡ ok row
    → row.review_queue_id ≡ queue
unfolding event_to_row row_of_event
event_to_row-queue event queue id row h = ground arith

filter-append_other {ℓ} :
    {A : Type ℓ} (p : A → Bool) (xs : List A) (y : A)
    → p y ≡ false
    → filter p (xs ++ y ∷ []) ≡ filter p xs
filter-append_other p [] y h = rw h refl
filter-append_other p (x ∷ xs) y h = ground (arith, filter-append_other p xs y h)

event_rows-append_other :
    (other : String) (rows : List EventRow) (row : EventRow)
    → row.review_queue_id ≢ other
    → event_rows other (rows ++ row ∷ []) ≡ event_rows other rows
unfolding event_rows
event_rows-append_other other rows row ne = ap (sorted event_order) (
    filter-append_other (λ (r : EventRow). r.review_queue_id == other) rows row
      (eq_false row.review_queue_id other ne))

case_rows-cas_update_other :
    (queue other case_id : String) (version : ℕ) (status : ReviewStatus) (payload : ReviewCase)
    (now : String) (rows : List CaseRow)
    → queue ≢ other
    → case_rows other
        (cas_update (cas_applies queue case_id version) (cas_row status payload now) rows)
      ≡ case_rows other rows
case_rows-cas_update_other queue other case_id version status payload now rows ne =
    case_rows-cas_update (cas_applies queue case_id version) status payload now other rows
    ∙ cas_update-none (cas_applies queue case_id version) (cas_row status payload now)
        (case_rows other rows)
        (AllOf-weaken (λ (row : CaseRow). in_queue other row ≡ true)
          (λ (row : CaseRow). cas_applies queue case_id version row ≡ false) (case_rows other rows)
          (λ row here.
            ground (arith, eq_iff row.review_queue_id other, eq_iff row.review_queue_id queue))
          (case_rows-here other rows))

-- What a queue loads depends on its own rows alone.
load_workflow_bundle-cong :
    (tools : StorageTools) (queue : String) (store store' : ReviewStore)
    → store'.workflow_contexts ≡ store.workflow_contexts
    → case_rows queue store'.review_cases ≡ case_rows queue store.review_cases
    → event_rows queue store'.review_case_events ≡ event_rows queue store.review_case_events
    → load_workflow_bundle tools queue store' ≡ load_workflow_bundle tools queue store
unfolding load_workflow_bundle select_cases select_events
load_workflow_bundle-cong tools queue store store' contexts cases events =
    rw (contexts, cases, events) refl

-- After a resolution in one queue, any other queue loads what it loaded before, an exception included.
pub resolve_case-isolated :
    (texts : TextTools) (tools : StorageTools) (queue : String)
    (cached : Dict EntityResolutionConfig) (load : String → Option EntityResolutionConfig)
    (case_id : String) (d : HumanReviewDecision) (reviewer : Option String) (version : ℕ)
    (now : String) (store : ReviewStore) (result : ReviewResolutionResult) (store' : ReviewStore)
    (other : String)
    → resolve_case texts tools queue cached load case_id d reviewer version now store
      ≡ ok (result, store')
    → queue ≢ other
    → load_workflow_bundle tools other store' ≡ load_workflow_bundle tools other store
resolve_case-isolated texts tools queue cached load case_id d reviewer version now store result
      store' other h ne =
    let r : Ran texts tools queue cached load case_id d reviewer version now store result store' =
      resolve_case-Ran texts tools queue cached load case_id d reviewer version now store result
        store' h in
    let w = r.wrote in
    let a : Applied tools queue w.updated version w.event now store result.persisted_case store' =
      apply_resolution-Applied tools queue w.updated version w.event now store result.persisted_case
        store' w.applies in
    let mine : a.row.review_queue_id ≡ queue =
      event_to_row-queue w.event queue store.next_event_id a.row a.written in
    load_workflow_bundle-cong tools other store store' a.contexts_after
      (ap (case_rows other) a.cases_after
        ∙ case_rows-cas_update_other queue other w.updated.review_case_id version w.updated.status _
            now store.review_cases ne)
      (ap (event_rows other) a.events_after
        ∙ event_rows-append_other other store.review_case_events a.row (λ e. ne (sym mine ∙ e)))
