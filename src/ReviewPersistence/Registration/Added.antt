-- ===== src/ReviewPersistence/Registration/Added.antt =====
-- The rows that a registration of cases adds.
use ai_data_quality_platform.Base.{
  String, true, false, not, Option, none, some, List, [], ◌∷◌, ◌++◌, ok, raise_if-false,
  returned-bind, ok-injective, ◌≡◌, refl, sym, ap, ◌∙◌, subst, arith, text_eq, inl, inr,
  Option-cases, append-nil, append_assoc,
}
use ai_data_quality_platform.Base.AllOf.{AllOf, AllOf-append}
use ai_data_quality_platform.EntityResolution.Models.{ordered}
use ai_data_quality_platform.HumanReview.Models.{ReviewStatus, status_eq, ReviewCase}
use ai_data_quality_platform.ReviewApplication.Models.{PersistedCase, initial_case}
use ai_data_quality_platform.ReviewPersistence.Rows.{
  StorageTools, CaseRow, case_payload_json, case_to_row,
}
use ai_data_quality_platform.ReviewPersistence.Tables.{ContextRow, ReviewStore, insert_case}
use ai_data_quality_platform.ReviewPersistence.Repository.{select_case, assert_identity_matches}
use ai_data_quality_platform.ReviewPersistence.Registration.Stored.{
  insert_case-inserted, initial_case-first,
}
use ai_data_quality_platform.ReviewPersistence.Registration.{
  assert_registrable, register_found, register_case_in, register_cases_in,
}

-- The pair as `RecordPair.ordered` makes it.
abbrev pub HasOrderedPair : ReviewCase → Type 0
HasOrderedPair c = ordered c.pair.record_a_id c.pair.record_b_id ≡ c.pair

-- A row that a registration inserts, and the case that it is of.
pub record IsNew (tools : StorageTools) (queue : String) (row : CaseRow) : Type 0 where
  pub source : ReviewCase
  pub in_order : HasOrderedPair source
  pub payload : row.case_payload ≡ case_payload_json tools source
  pub here : row.review_queue_id ≡ queue
  pub first : row.version ≡ 1
  pub pending : status_eq row.status ReviewStatus.pending ≡ true

-- What became of the tables, where some contexts were added.
pub record AddsRows (tools : StorageTools) (queue : String) (contexts : List ContextRow)
    (store store' : ReviewStore) : Type 0 where
  pub added : List CaseRow
  pub rows : store'.review_cases ≡ store.review_cases ++ added
  pub fresh : AllOf (IsNew tools queue) added
  pub events : store'.review_case_events ≡ store.review_case_events
  pub next : store'.next_event_id ≡ store.next_event_id
  pub tenants : store'.organizations ≡ store.organizations
  pub queues : store'.review_queues ≡ store.review_queues
  pub contexts_after : store'.workflow_contexts ≡ store.workflow_contexts ++ contexts

pub AddsRows-refl :
    (tools : StorageTools) (queue : String) (store : ReviewStore)
    → AddsRows tools queue [] store store
AddsRows-refl tools queue store = record {
  added = [];
  rows = sym (append-nil store.review_cases);
  fresh = tt;
  events = refl;
  next = refl;
  tenants = refl;
  queues = refl;
  contexts_after = sym (append-nil store.workflow_contexts);
}

pub AddsRows-trans :
    (tools : StorageTools) (queue : String) (xs ys : List ContextRow) (a b c : ReviewStore)
    → AddsRows tools queue xs a b
    → AddsRows tools queue ys b c
    → AddsRows tools queue (xs ++ ys) a c
AddsRows-trans tools queue xs ys a b c p q = record {
  added = p.added ++ q.added;
  rows = q.rows ∙ ap (λ w. w ++ q.added) p.rows ∙ append_assoc a.review_cases p.added q.added;
  fresh = AllOf-append (IsNew tools queue) p.added q.added p.fresh q.fresh;
  events = q.events ∙ p.events;
  next = q.next ∙ p.next;
  tenants = q.tenants ∙ p.tenants;
  queues = q.queues ∙ p.queues;
  contexts_after =
      q.contexts_after
      ∙ ap (λ w. w ++ ys) p.contexts_after
      ∙ append_assoc a.workflow_contexts xs ys;
}

module _ (tools : StorageTools) (queue : String) where
  inserted-Adds :
      (c : ReviewCase) (now : String) (p : PersistedCase) (store store' : ReviewStore)
      → HasOrderedPair c
      → status_eq c.status ReviewStatus.pending ≡ true
      → initial_case tools.strip c now ≡ ok p
      → insert_case (case_to_row tools p queue) store ≡ some store'
      → AddsRows tools queue [] store store'
  unfolding case_to_row
  inserted-Adds c now p store store' in_order pending made inserted =
      let first = initial_case-first tools.strip c now p made in
      let s = insert_case-inserted (case_to_row tools p queue) store store' inserted in
      record {
        added = case_to_row tools p queue ∷ [];
        rows = ap (λ w. w.review_cases) s;
        fresh = (
          record {
            source = c;
            in_order = in_order;
            payload = ap (λ w. case_payload_json tools w.case) first;
            here = refl;
            first = ap (λ w. w.version) first;
            pending = ap (λ w. status_eq w.case.status ReviewStatus.pending) first ∙ pending;
          },
          tt,
        );
        events = ap (λ w. w.review_case_events) s;
        next = ap (λ w. w.next_event_id) s;
        tenants = ap (λ w. w.organizations) s;
        queues = ap (λ w. w.review_queues) s;
        contexts_after = ap (λ w. w.workflow_contexts) s ∙ sym (append-nil store.workflow_contexts);
      }

  assert_registrable-pending :
      (c : ReviewCase)
      → assert_registrable c ≡ ok tt
      → status_eq c.status ReviewStatus.pending ≡ true
  unfolding assert_registrable
  assert_registrable-pending c h =
      let waiting : not (status_eq c.status ReviewStatus.pending) ≡ false = raise_if-false _ _ h in
      ground arith

  -- The two answers of the SELECT.
  answer-Adds :
      (c : ReviewCase) (now : String) (p : PersistedCase) (store store' : ReviewStore)
      → HasOrderedPair c
      → status_eq c.status ReviewStatus.pending ≡ true
      → (found : Option PersistedCase)
      → register_found tools queue c now store found ≡ ok (p, store')
      → AddsRows tools queue [] store store'
  unfolding register_found
  answer-Adds c now p store store' in_order pending (some existing) h =
      let (u, h1, same) = returned-bind (assert_identity_matches existing c) _ h in
      subst (AddsRows tools queue [] store) (ap (λ w. w.1) (ok-injective h1))
        (AddsRows-refl tools queue store)
  answer-Adds c now p store store' in_order pending none h =
      let (q, h1, made) = returned-bind (initial_case tools.strip c now) _ h in
      elim (Option-cases (insert_case (case_to_row tools q queue) store)) [
        | inl refused ↦ cc (rw refused at h1)
        | inr (stored, inserted) ↦
            let whole : ok (q, stored) ≡ ok (p, store') = rw inserted at h1 in
            subst (AddsRows tools queue [] store) (ap (λ w. w.1) (ok-injective whole))
              (inserted-Adds c now q store stored in_order pending made inserted)
      ]

  register_case_in-Adds :
      (c : ReviewCase) (now : String) (p : PersistedCase) (store store' : ReviewStore)
      → HasOrderedPair c
      → register_case_in tools queue c now store ≡ ok (p, store')
      → AddsRows tools queue [] store store'
  unfolding register_case_in
  register_case_in-Adds c now p store store' in_order h =
      let (u, h1, registrable) = returned-bind (assert_registrable c) _ h in
      let (found, h2, selected) =
        returned-bind (select_case tools queue c.review_case_id store) _ h1 in
      answer-Adds c now p store store' in_order (assert_registrable-pending c registrable) found h2

  pub register_cases_in-Adds :
      (cases : List ReviewCase) (now : String) (ps : List PersistedCase)
      (store store' : ReviewStore)
      → AllOf HasOrderedPair cases
      → register_cases_in tools queue cases now store ≡ ok (ps, store')
      → AddsRows tools queue [] store store'
  unfolding register_cases_in
  register_cases_in-Adds [] now ps store store' in_order h =
      subst (AddsRows tools queue [] store) (ap (λ w. w.1) (ok-injective h))
        (AddsRows-refl tools queue store)
  register_cases_in-Adds (c ∷ cases) now ps store store' (ordered_c, in_order) h =
      let (first, h1, e1) = returned-bind (register_case_in tools queue c now store) _ h in
      let (rest, h2, e2) = returned-bind (register_cases_in tools queue cases now first.1) _ h1 in
      AddsRows-trans tools queue [] [] store first.1 store'
        (register_case_in-Adds c now first.0 store first.1 ordered_c e1)
        (subst (AddsRows tools queue [] first.1) (ap (λ w. w.1) (ok-injective h2))
          (register_cases_in-Adds cases now rest.0 first.1 rest.1 in_order e2))
