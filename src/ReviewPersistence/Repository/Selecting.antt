-- ===== src/ReviewPersistence/Repository/Selecting.antt =====
-- The SELECTs of a queue after the update of a case and the insertion of an event.
use ai_data_quality_platform.Base.{
  ℕ, ◌<◌, String, Bool, true, false, List, [], ◌∷◌, ◌++◌, ◌==◌, filter, sorted, text_eq, Result, ok,
  returned-bind, ok-injective, ◌≡◌, refl, sym, ap, ◌∙◌, subst, inl, inr, arith, Bool-cases,
}
use ai_data_quality_platform.Base.AllOf.{AllOf, AllOf-sorted}
use ai_data_quality_platform.HumanReview.Models.{ReviewCase}
use ai_data_quality_platform.ReviewApplication.Errors.{
  ReviewApplicationError, persisted_case_integrity,
}
use ai_data_quality_platform.ReviewApplication.Models.{PersistedCase, ReviewEvent, require_text}
use ai_data_quality_platform.ReviewApplication.History.Sorting.{sorted-append}
use ai_data_quality_platform.ReviewPersistence.Rows.{
  StorageTools, CaseRow, EventRow, row_to_persisted_case, row_to_review_event,
}
use ai_data_quality_platform.ReviewPersistence.Rows.Reading.{IsStored, Succeeds, updated_row}
use ai_data_quality_platform.ReviewPersistence.Tables.{
  ReviewStore, in_queue, case_order, event_order, case_rows, event_rows, cas_applies, cas_update,
}
use ai_data_quality_platform.ReviewPersistence.Tables.Updates.{case_rows-cas_update}
use ai_data_quality_platform.ReviewPersistence.Repository.{
  read_all, select_cases, select_events, list_events,
}
use ai_data_quality_platform.ReviewPersistence.Repository.Loading.{update_cases, read-changed}

module _ {ℓ κ} {A : Type ℓ} {B : Type κ} (read : A → Result ReviewApplicationError B) where
  pub read_all-append :
      (rows : List A) (row : A) (values : List B) (value : B)
      → read_all read rows ≡ ok values
      → read row ≡ ok value
      → read_all read (rows ++ row ∷ []) ≡ ok (values ++ value ∷ [])
  unfolding read_all
  read_all-append [] row values value h k = rw (k, ← ok-injective h) refl
  read_all-append (r ∷ rows) row values value h k =
      let (v, h1, first) = returned-bind (read r) _ h in
      let (vs, whole, rest) = returned-bind (read_all read rows) _ h1 in
      rw (first, read_all-append rows row vs value rest k)
        (ap (λ w. ok (w ++ value ∷ [])) (ok-injective whole))

filter-append {ℓ} :
    {A : Type ℓ} (p : A → Bool) (xs : List A) (y : A)
    → p y ≡ true
    → filter p (xs ++ y ∷ []) ≡ filter p xs ++ y ∷ []
filter-append p [] y h = rw h refl
filter-append p (x ∷ xs) y h = ground (arith, filter-append p xs y h)

AllOf-filtered {ℓ κ} :
    {A : Type ℓ} (P : A → Type κ) (p : A → Bool) (xs : List A) → AllOf P xs → AllOf P (filter p xs)
AllOf-filtered P p [] all = tt
AllOf-filtered P p (x ∷ xs) (h, all) = elim (Bool-cases (p x)) [
  | inl in_it ↦ rw in_it (h, AllOf-filtered P p xs all)
  | inr out_of_it ↦ rw out_of_it (AllOf-filtered P p xs all)
]

AllOf-accepted {ℓ} :
    {A : Type ℓ} (p : A → Bool) (xs : List A) → AllOf (λ x. p x ≡ true) (filter p xs)
AllOf-accepted p [] = tt
AllOf-accepted p (x ∷ xs) = elim (Bool-cases (p x)) [
  | inl in_it ↦ rw in_it (in_it, AllOf-accepted p xs)
  | inr out_of_it ↦ rw out_of_it (AllOf-accepted p xs)
]

-- The rows of a queue are in it, and keep what holds of all rows.
pub case_rows-here :
    (queue : String) (rows : List CaseRow)
    → AllOf (λ row. in_queue queue row ≡ true) (case_rows queue rows)
unfolding case_rows
case_rows-here queue rows =
    AllOf-sorted (λ row. in_queue queue row ≡ true) case_order (filter (in_queue queue) rows)
      (AllOf-accepted (in_queue queue) rows)

pub case_rows-AllOf {κ} :
    (P : CaseRow → Type κ) (queue : String) (rows : List CaseRow)
    → AllOf P rows
    → AllOf P (case_rows queue rows)
unfolding case_rows
case_rows-AllOf P queue rows all =
    AllOf-sorted P case_order (filter (in_queue queue) rows)
      (AllOf-filtered P (in_queue queue) rows all)

-- The id that the next event takes is above all.
abbrev pub HasFreshId : ReviewStore → Type 0
HasFreshId store =
    AllOf (λ (r : EventRow). r.event_id < store.next_event_id) store.review_case_events

AllOf-fresh :
    (row : EventRow) (rows : List EventRow)
    → AllOf (λ (r : EventRow). r.event_id < row.event_id) rows
    → AllOf (λ r. event_order row r ≡ false) rows
AllOf-fresh row [] all = tt
AllOf-fresh row (r ∷ rows) (h, all) = (ground arith, AllOf-fresh row rows all)

pub event_rows-append :
    (queue : String) (row : EventRow) (rows : List EventRow)
    → (row.review_queue_id == queue) ≡ true
    → AllOf (λ (r : EventRow). r.event_id < row.event_id) rows
    → event_rows queue (rows ++ row ∷ []) ≡ event_rows queue rows ++ row ∷ []
unfolding event_rows
event_rows-append queue row rows here fresh =
    let mine : EventRow → Bool = λ r. r.review_queue_id == queue in
    ap (sorted event_order) (filter-append mine rows row here)
    ∙ sorted-append event_order (filter mine rows) row (
        AllOf-fresh row (filter mine rows)
          (AllOf-filtered (λ (r : EventRow). r.event_id < row.event_id) mine rows fresh))

module _ (tools : StorageTools) (queue case_id : String) (version : ℕ) (was after : ReviewCase)
    (now : String) (succeeds : Succeeds was after)
    (timely : require_text tools.strip persisted_case_integrity now ≡ ok tt) where
  abbrev Fits : PersistedCase → Type 0
  Fits p = p.case.review_case_id ≡ case_id → (p.case ≡ was) × (p.version ≡ version)

  read_all-changed :
      (rows : List CaseRow) (ps : List PersistedCase)
      → AllOf (λ row. in_queue queue row ≡ true) rows
      → AllOf (IsStored tools) rows
      → read_all (row_to_persisted_case tools) rows ≡ ok ps
      → AllOf Fits ps
      → read_all
          (row_to_persisted_case tools)
          (cas_update (cas_applies queue case_id version) (updated_row tools after now) rows)
        ≡ ok (update_cases case_id after now ps)
  unfolding read_all cas_update update_cases
  read_all-changed [] ps here stored h fits = rw (← ok-injective h) refl
  read_all-changed (row ∷ rows) ps (in_it, here) (st, stored) h fits =
      let (p, h1, first) = returned-bind (row_to_persisted_case tools row) _ h in
      let (rest, whole, reads) = returned-bind (read_all (row_to_persisted_case tools) rows) _ h1 in
      let (fit, fits') =
        let f : AllOf Fits (p ∷ rest) = subst (AllOf Fits) (sym (ok-injective whole)) fits in f in
      rw
        (
          read-changed tools queue case_id version was after now succeeds timely row p
              (record { here = in_it; stored = st; reads = first; holds = fit }),
          read_all-changed rows rest here stored reads fits',
        )
        (ap (λ w. ok (update_cases case_id after now w)) (ok-injective whole))

  pub select_cases-changed :
      (store store' : ReviewStore) (ps : List PersistedCase)
      → AllOf (IsStored tools) store.review_cases
      → select_cases tools queue store ≡ ok ps
      → AllOf Fits ps
      → store'.review_cases
        ≡ cas_update
            (cas_applies queue case_id version)
            (updated_row tools after now)
            store.review_cases
      → select_cases tools queue store' ≡ ok (update_cases case_id after now ps)
  unfolding select_cases
  select_cases-changed store store' ps stored h fits changed =
      ap (λ w. read_all (row_to_persisted_case tools) (case_rows queue w)) changed
      ∙ ap (read_all (row_to_persisted_case tools)) (
          case_rows-cas_update (cas_applies queue case_id version) after.status _ now queue
            store.review_cases)
      ∙ read_all-changed (case_rows queue store.review_cases) ps
          (case_rows-here queue store.review_cases)
          (case_rows-AllOf (IsStored tools) queue store.review_cases stored) h fits

pub select_events-appended :
    (tools : StorageTools) (queue : String) (store store' : ReviewStore) (row : EventRow)
    (events : List ReviewEvent) (event : ReviewEvent)
    → select_events tools queue store ≡ ok events
    → row_to_review_event tools row ≡ ok event
    → (row.review_queue_id == queue) ≡ true
    → row.event_id ≡ store.next_event_id
    → HasFreshId store
    → store'.review_case_events ≡ store.review_case_events ++ row ∷ []
    → select_events tools queue store' ≡ ok (events ++ event ∷ [])
unfolding select_events
select_events-appended tools queue store store' row events event h reads here id fresh appended =
    ap (λ w. read_all (row_to_review_event tools) (event_rows queue w)) appended
    ∙ ap (read_all (row_to_review_event tools))
        (event_rows-append queue row store.review_case_events here (rw id fresh))
    ∙ read_all-append (row_to_review_event tools) (event_rows queue store.review_case_events) row
        events event h reads

read_all-last {ℓ κ} :
    {A : Type ℓ} {B : Type κ} (read : A → Result ReviewApplicationError B) (rows : List A) (row : A)
    (values : List B)
    → read_all read (rows ++ row ∷ []) ≡ ok values
    → (value : B) × (read row ≡ ok value)
unfolding read_all
read_all-last read [] row values h = let (v, h1, first) = returned-bind (read row) _ h in (v, first)
read_all-last read (r ∷ rows) row values h =
    let (v, h1, first) = returned-bind (read r) _ h in
    let (vs, whole, rest) = returned-bind (read_all read (rows ++ row ∷ [])) _ h1 in
    read_all-last read rows row vs rest

-- The history of a case that was listed has read its last event.
pub list_events-last :
    (tools : StorageTools) (queue case_id : String) (store store' : ReviewStore) (row : EventRow)
    (events : List ReviewEvent)
    → (row.review_queue_id == queue) ≡ true
    → (row.review_case_id == case_id) ≡ true
    → row.event_id ≡ store.next_event_id
    → HasFreshId store
    → store'.review_case_events ≡ store.review_case_events ++ row ∷ []
    → list_events tools queue case_id store' ≡ ok events
    → (event : ReviewEvent) × (row_to_review_event tools row ≡ ok event)
unfolding list_events
list_events-last tools queue case_id store store' row events here named id fresh appended h =
    let of_case : EventRow → Bool = λ r. r.review_case_id == case_id in
    let found : filter of_case (event_rows queue store'.review_case_events)
        ≡ filter of_case (event_rows queue store.review_case_events) ++ row ∷ [] =
      ap (λ w. filter of_case (event_rows queue w)) appended
      ∙ ap (filter of_case)
          (event_rows-append queue row store.review_case_events here (rw id fresh))
      ∙ filter-append of_case (event_rows queue store.review_case_events) row named in
    read_all-last (row_to_review_event tools)
      (filter of_case (event_rows queue store.review_case_events)) row events
      (ap (read_all (row_to_review_event tools)) (sym found) ∙ h)
