-- ===== src/ReviewPersistence/Repository/Applying.antt =====
-- What a resolution that was applied went through.
use ai_data_quality_platform.Base.{
  ℕ, ◌+◌, String, true, false, not, Option, none, some, [], ◌∷◌, ◌++◌, ◌&&◌, ◌==◌, nat_eq, ok,
  raise_if, raise_if-false, returned-bind, ok-injective, ◌≡◌, sym, ap, ◌∙◌, arith,
}
use ai_data_quality_platform.HumanReview.Models.{ReviewStatus, status_eq, ReviewCase}
use ai_data_quality_platform.ReviewApplication.Errors.{persisted_case_integrity, review_conflict}
use ai_data_quality_platform.ReviewApplication.Models.{PersistedCase, ReviewEvent, with_case}
use ai_data_quality_platform.ReviewPersistence.Rows.{
  StorageTools, EventRow, case_payload_json, event_to_row,
}
use ai_data_quality_platform.ReviewPersistence.Tables.{
  ReviewStore, cas_applies, cas_row, cas_update, insert_event,
}
use ai_data_quality_platform.ReviewPersistence.Repository.{
  assert_domain_approved, require_resolvable_case, select_case, compare_and_swap_case, append_event,
  apply_resolution,
}

pub record Applied (tools : StorageTools) (queue : String) (c : ReviewCase) (version : ℕ)
    (event : ReviewEvent) (now : String) (store : ReviewStore) (after : PersistedCase)
    (store' : ReviewStore) : Type 0 where
  pub stored : PersistedCase
  pub row : EventRow
  pub approved : assert_domain_approved c event ≡ ok tt
  pub selected : select_case tools queue c.review_case_id store ≡ ok (some stored)
  pub at_version : stored.version ≡ version
  pub pending : status_eq stored.case.status ReviewStatus.pending ≡ true
  pub written : event_to_row event queue store.next_event_id ≡ ok row
  pub cases_after :
      store'.review_cases
      ≡ cas_update
          (cas_applies queue c.review_case_id version)
          (cas_row c.status (case_payload_json tools c) now)
          store.review_cases
  pub events_after : store'.review_case_events ≡ store.review_case_events ++ row ∷ []
  pub next_after : store'.next_event_id ≡ store.next_event_id + 1
  pub contexts_after : store'.workflow_contexts ≡ store.workflow_contexts
  pub advanced : with_case tools.strip stored c now ≡ ok after

-- What makes a stored case resolvable.
pub record IsResolvable (found : Option PersistedCase) (c : ReviewCase) (version : ℕ)
    (stored : PersistedCase) : Type 0 where
  pub there : found ≡ some stored
  pub at_version : stored.version ≡ version
  pub pending : status_eq stored.case.status ReviewStatus.pending ≡ true

pub require_resolvable_case-IsResolvable :
    (found : Option PersistedCase) (c : ReviewCase) (version : ℕ) (stored : PersistedCase)
    → require_resolvable_case found c version ≡ ok stored
    → IsResolvable found c version stored
unfolding require_resolvable_case
require_resolvable_case-IsResolvable none c version stored h = cc
require_resolvable_case-IsResolvable (some p) c version stored h =
    let (u, h1, same) =
      returned-bind
        (raise_if
          (not (
            p.case.pair.record_a_id == c.pair.record_a_id
            && p.case.pair.record_b_id == c.pair.record_b_id))
          persisted_case_integrity)
        _ h in
    let (v, h2, current) =
      returned-bind (raise_if (not (nat_eq p.version version)) review_conflict) _ h1 in
    let (w, h3, waiting) =
      returned-bind
        (raise_if (not (status_eq p.case.status ReviewStatus.pending)) persisted_case_integrity) _
        h2 in
    let now_at : not (nat_eq p.version version) ≡ false = raise_if-false _ _ current in
    let open_now : not (status_eq p.case.status ReviewStatus.pending) ≡ false =
      raise_if-false _ _ waiting in
    let same_case : p ≡ stored = ok-injective h3 in
    record {
      there = ap some same_case;
      at_version = ap (λ w. w.version) (sym same_case) ∙ ground arith;
      pending =
          ap (λ w. status_eq w.case.status ReviewStatus.pending) (sym same_case) ∙ ground arith;
    }

insert_event-inserted :
    (row : EventRow) (store store' : ReviewStore)
    → insert_event row store ≡ ok store'
    → store' ≡ record store {
      review_case_events = store.review_case_events ++ row ∷ [];
      next_event_id = store.next_event_id + 1;
    }
unfolding insert_event
insert_event-inserted row store store' h = ground arith

compare_and_swap_case-swapped :
    (tools : StorageTools) (queue : String) (c : ReviewCase) (version : ℕ) (now : String)
    (store store' : ReviewStore)
    → compare_and_swap_case tools queue c version now store ≡ ok store'
    → store' ≡ record store {
      review_cases =
          cas_update
            (cas_applies queue c.review_case_id version)
            (cas_row c.status (case_payload_json tools c) now)
            store.review_cases;
    }
unfolding compare_and_swap_case
compare_and_swap_case-swapped tools queue c version now store store' h = ground arith

module _ (tools : StorageTools) (queue : String) (c : ReviewCase) (version : ℕ)
    (event : ReviewEvent) (now : String) (store : ReviewStore) (after : PersistedCase)
    (store' : ReviewStore) where
  pub apply_resolution-Applied :
      apply_resolution tools queue c version event now store ≡ ok (after, store')
      → Applied tools queue c version event now store after store'
  unfolding apply_resolution append_event
  apply_resolution-Applied h =
      let (u, h1, approved) = returned-bind (assert_domain_approved c event) _ h in
      let (found, h2, selected) =
        returned-bind (select_case tools queue c.review_case_id store) _ h1 in
      let (stored, h3, resolvable) = returned-bind (require_resolvable_case found c version) _ h2 in
      let (swapped, h4, swap) =
        returned-bind (compare_and_swap_case tools queue c version now store) _ h3 in
      let (appended, h5, append) = returned-bind (append_event tools queue event swapped) _ h4 in
      let (p, h6, advanced) = returned-bind (with_case tools.strip stored c now) _ h5 in
      let (row, inserted, written) =
        returned-bind (event_to_row event queue swapped.next_event_id) _ append in
      let r : IsResolvable found c version stored =
        require_resolvable_case-IsResolvable found c version stored resolvable in
      let s1 = compare_and_swap_case-swapped tools queue c version now store swapped swap in
      let s2 = insert_event-inserted row swapped appended inserted in
      let s3 : appended ≡ store' = ap (λ w. w.1) (ok-injective h6) in
      record {
        stored = stored;
        row = row;
        approved = approved;
        selected = selected ∙ ap ok r.there;
        at_version = r.at_version;
        pending = r.pending;
        written = ap (λ w. event_to_row event queue w.next_event_id) (sym s1) ∙ written;
        cases_after =
            ap (λ w. w.review_cases) (sym s3)
            ∙ ap (λ w. w.review_cases) s2
            ∙ ap (λ w. w.review_cases) s1;
        events_after =
            ap (λ w. w.review_case_events) (sym s3)
            ∙ ap (λ w. w.review_case_events) s2
            ∙ ap (λ (w : ReviewStore). w.review_case_events ++ row ∷ []) s1;
        next_after =
            ap (λ w. w.next_event_id) (sym s3)
            ∙ ap (λ w. w.next_event_id) s2
            ∙ ap (λ (w : ReviewStore). w.next_event_id + 1) s1;
        contexts_after =
            ap (λ w. w.workflow_contexts) (sym s3)
            ∙ ap (λ w. w.workflow_contexts) s2
            ∙ ap (λ w. w.workflow_contexts) s1;
        advanced = advanced ∙ ap (λ w. ok w.0) (ok-injective h6);
      }
