-- ===== src/ReviewPersistence/Registration/Stored.antt =====
-- The cases that a registration leaves stored.
use ai_data_quality_platform.Base.{
  String, true, Option, none, some, List, [], ◌∷◌, ◌++◌, ok, eq_iff, returned-bind, ok-injective,
  ◌≡◌, refl, sym, ap, subst, arith, text_eq, inl, inr, Option-cases, Bool-cases,
}
use ai_data_quality_platform.Base.AllOf.{AnyOf, AnyOf-last}
use ai_data_quality_platform.HumanReview.Models.{ReviewCase}
use ai_data_quality_platform.ReviewApplication.Errors.{persisted_case_integrity}
use ai_data_quality_platform.ReviewApplication.Models.{
  PersistedCase, initial_case, persisted_case, require_text,
}
use ai_data_quality_platform.ReviewPersistence.Rows.{StorageTools, CaseRow, case_to_row}
use ai_data_quality_platform.ReviewPersistence.Tables.{ReviewStore, insert_case, is_case}
use ai_data_quality_platform.ReviewPersistence.Repository.{
  fetchone, select_case, assert_identity_matches,
}
use ai_data_quality_platform.ReviewPersistence.Registration.{
  assert_registrable, register_found, register_case_in,
}

-- A row of the case in the queue.
pub record IsRowOf (queue case_id : String) (row : CaseRow) : Type 0 where
  pub same_queue : row.review_queue_id ≡ queue
  pub same_case : row.review_case_id ≡ case_id

-- The case has a row in the queue.
abbrev pub IsStoredIn : String → List CaseRow → ReviewCase → Type 0
IsStoredIn queue rows c = AnyOf (IsRowOf queue c.review_case_id) rows

module _ (queue case_id : String) where
  is_case-IsRowOf : (row : CaseRow) → is_case queue case_id row ≡ true → IsRowOf queue case_id row
  is_case-IsRowOf row h = record {
    same_queue = (eq_iff row.review_queue_id queue).0 (ground arith);
    same_case = (eq_iff row.review_case_id case_id).0 (ground arith);
  }

  fetchone-IsRowOf :
      (rows : List CaseRow) (row : CaseRow)
      → fetchone (is_case queue case_id) rows ≡ some row
      → AnyOf (IsRowOf queue case_id) rows
  unfolding fetchone
  fetchone-IsRowOf [] row h = cc
  fetchone-IsRowOf (r ∷ rows) row h = elim (Bool-cases (is_case queue case_id r)) [
    | inl hit ↦ inl (is_case-IsRowOf r hit)
    | inr miss ↦ inr (fetchone-IsRowOf rows row (rw miss at h))
  ]

pub insert_case-inserted :
    (row : CaseRow) (store store' : ReviewStore)
    → insert_case row store ≡ some store'
    → store' ≡ record store { review_cases = store.review_cases ++ row ∷ [] }
unfolding insert_case
insert_case-inserted row store store' h = ground arith

pub initial_case-first :
    (strip : String → String) (c : ReviewCase) (now : String) (p : PersistedCase)
    → initial_case strip c now ≡ ok p
    → p ≡ record { case = c; version = 1; created_at_utc = now; updated_at_utc = now }
unfolding initial_case persisted_case
initial_case-first strip c now p h =
    let (u, h1, e1) = returned-bind (require_text strip persisted_case_integrity now) _ h in
    let (v, h2, e2) = returned-bind (require_text strip persisted_case_integrity now) _ h1 in
    let (w, h3, e3) =
      returned-bind (require_text strip persisted_case_integrity c.review_case_id) _ h2 in
    sym (ok-injective h3)

module _ (tools : StorageTools) (queue : String) where
  selected-IsStoredIn :
      (c : ReviewCase) (store : ReviewStore) (existing : PersistedCase)
      → select_case tools queue c.review_case_id store ≡ ok (some existing)
      → IsStoredIn queue store.review_cases c
  unfolding select_case
  selected-IsStoredIn c store existing h =
      elim (Option-cases (fetchone (is_case queue c.review_case_id) store.review_cases)) [
        | inl absent ↦ cc (rw (absent, select_case) at h)
        | inr (row, there) ↦ fetchone-IsRowOf queue c.review_case_id store.review_cases row there
      ]

  -- The id of an initial case is that of its case.
  inserted-IsStoredIn :
      (c : ReviewCase) (p : PersistedCase) (store stored : ReviewStore)
      → p.case ≡ c
      → insert_case (case_to_row tools p queue) store ≡ some stored
      → IsStoredIn queue stored.review_cases c
  unfolding case_to_row
  inserted-IsStoredIn c p store stored same inserted =
      subst (λ (s : ReviewStore). IsStoredIn queue s.review_cases c)
        (sym (insert_case-inserted (case_to_row tools p queue) store stored inserted))
        (AnyOf-last (IsRowOf queue c.review_case_id) store.review_cases (case_to_row tools p queue)
          (record {
            same_queue = refl;
            same_case = ap (λ (d : ReviewCase). d.review_case_id) same;
          }))

  answer-IsStoredIn :
      (c : ReviewCase) (now : String) (p : PersistedCase) (store store' : ReviewStore)
      (found : Option PersistedCase)
      → select_case tools queue c.review_case_id store ≡ ok found
      → register_found tools queue c now store found ≡ ok (p, store')
      → IsStoredIn queue store'.review_cases c
  unfolding register_found
  answer-IsStoredIn c now p store store' (some existing) selected h =
      let (u, h1, same) = returned-bind (assert_identity_matches existing c) _ h in
      subst (λ (s : ReviewStore). IsStoredIn queue s.review_cases c)
        (ap (λ w. w.1) (ok-injective h1)) (selected-IsStoredIn c store existing selected)
  answer-IsStoredIn c now p store store' none selected h =
      let (q, h1, made) = returned-bind (initial_case tools.strip c now) _ h in
      elim (Option-cases (insert_case (case_to_row tools q queue) store)) [
        | inl refused ↦ cc (rw refused at h1)
        | inr (stored, inserted) ↦
            let whole : ok (q, stored) ≡ ok (p, store') = rw inserted at h1 in
            subst (λ (s : ReviewStore). IsStoredIn queue s.review_cases c)
              (ap (λ w. w.1) (ok-injective whole))
              (inserted-IsStoredIn c q store stored
                (ap (λ (w : PersistedCase). w.case) (initial_case-first tools.strip c now q made))
                inserted)
      ]

  -- A registration that returns leaves its case stored.
  pub register_case_in-IsStoredIn :
      (c : ReviewCase) (now : String) (p : PersistedCase) (store store' : ReviewStore)
      → register_case_in tools queue c now store ≡ ok (p, store')
      → IsStoredIn queue store'.review_cases c
  unfolding register_case_in
  register_case_in-IsStoredIn c now p store store' h =
      let (u, h1, registrable) = returned-bind (assert_registrable c) _ h in
      let (found, h2, selected) =
        returned-bind (select_case tools queue c.review_case_id store) _ h1 in
      answer-IsStoredIn c now p store store' found selected h2
