-- ===== src/ReviewApplication/Service/Validity.antt =====
-- A resolution leaves the store valid.
use ai_data_quality_platform.Base.{
  ◌+◌, ◌<◌, String, Bool, some, List, [], ◌∷◌, ◌++◌, ok, returned-bind, ok-injective,
  some-injective, ◌≡◌, refl, sym, ap, subst, inl, inr, arith, Bool-cases, text_eq,
}
use ai_data_quality_platform.Base.AllOf.{AllOf, AllOf-weaken, AllOf-append}
use ai_data_quality_platform.EntityResolution.Models.{ordered}
use ai_data_quality_platform.HumanReview.Models.{ReviewCase}
use ai_data_quality_platform.ReviewApplication.Models.{PersistedCase}
use ai_data_quality_platform.ReviewPersistence.Rows.{
  StorageTools, CaseRow, EventRow, review_case_from_payload, case_payload_json,
  row_to_persisted_case,
}
use ai_data_quality_platform.ReviewPersistence.Rows.Reading.{
  IsStored, Succeeds, Reads, row_to_persisted_case-Reads, updated_row,
}
use ai_data_quality_platform.ReviewPersistence.Tables.{ReviewStore, case_rows, cas_row, cas_update}
use ai_data_quality_platform.ReviewPersistence.Repository.{fetchone, read_all, select_cases}
use ai_data_quality_platform.ReviewPersistence.Repository.Selecting.{HasFreshId, case_rows-AllOf}

-- A case whose pair is in order and whose score is rounded.
pub record IsCanonical (tools : StorageTools) (c : ReviewCase) : Type 0 where
  in_order : ordered c.pair.record_a_id c.pair.record_b_id ≡ c.pair
  rounded : tools.round_score c.machine_score ≡ c.machine_score

read-IsCanonical :
    (tools : StorageTools) (row : CaseRow) (p : PersistedCase)
    → IsStored tools row
    → row_to_persisted_case tools row ≡ ok p
    → IsCanonical tools p.case
unfolding review_case_from_payload
read-IsCanonical tools row p s h =
    let r : Reads tools row p = row_to_persisted_case-Reads tools row p h in
    subst (IsCanonical tools) (sym (ap (λ w. w.case) r.value))
      (record { in_order = rw (s.in_order, s.in_order) refl; rounded = s.rounded })

read_all-IsCanonical :
    (tools : StorageTools) (rows : List CaseRow) (ps : List PersistedCase)
    → AllOf (IsStored tools) rows
    → read_all (row_to_persisted_case tools) rows ≡ ok ps
    → AllOf (λ p. IsCanonical tools p.case) ps
unfolding read_all
read_all-IsCanonical tools [] ps stored h =
    subst (AllOf (λ p. IsCanonical tools p.case)) (ok-injective h) tt
read_all-IsCanonical tools (row ∷ rows) ps (s, stored) h =
    let (p, h1, first) = returned-bind (row_to_persisted_case tools row) _ h in
    let (rest, whole, reads) = returned-bind (read_all (row_to_persisted_case tools) rows) _ h1 in
    subst (AllOf (λ q. IsCanonical tools q.case)) (ok-injective whole)
      (read-IsCanonical tools row p s first, read_all-IsCanonical tools rows rest stored reads)

-- The stored cases of a valid store are canonical.
pub select_cases-IsCanonical :
    (tools : StorageTools) (queue : String) (store : ReviewStore) (ps : List PersistedCase)
    → AllOf (IsStored tools) store.review_cases
    → select_cases tools queue store ≡ ok ps
    → AllOf (λ p. IsCanonical tools p.case) ps
unfolding select_cases
select_cases-IsCanonical tools queue store ps stored h =
    read_all-IsCanonical tools (case_rows queue store.review_cases) ps
      (case_rows-AllOf (IsStored tools) queue store.review_cases stored) h

pub AllOf-fetchone {ℓ κ} :
    {A : Type ℓ} (P : A → Type κ) (test : A → Bool) (xs : List A) (x : A)
    → AllOf P xs
    → fetchone test xs ≡ some x
    → P x
unfolding fetchone
AllOf-fetchone P test [] x all h = cc
AllOf-fetchone P test (y ∷ ys) x (hy, all) h = elim (Bool-cases (test y)) [
  | inl hit ↦ subst P (some-injective (rw hit at h)) hy
  | inr miss ↦ AllOf-fetchone P test ys x all (rw miss at h)
]

pub Succeeds-IsCanonical :
    (tools : StorageTools) (was after : ReviewCase)
    → Succeeds was after
    → IsCanonical tools was
    → IsCanonical tools after
Succeeds-IsCanonical tools was after s c = record {
  in_order = rw (s.same_pair, c.in_order) refl;
  rounded = rw (s.same_score, c.rounded) refl;
}

AllOf-cas_update {κ} :
    (P : CaseRow → Type κ) (applies : CaseRow → Bool) (change : CaseRow → CaseRow)
    (rows : List CaseRow)
    → ((row : CaseRow) → P (change row))
    → AllOf P rows
    → AllOf P (cas_update applies change rows)
unfolding cas_update
AllOf-cas_update P applies change [] made all = tt
AllOf-cas_update P applies change (row ∷ rows) made (h, all) = elim (Bool-cases (applies row)) [
  | inl hit ↦ rw hit (made row, AllOf-cas_update P applies change rows made all)
  | inr miss ↦ rw miss (h, AllOf-cas_update P applies change rows made all)
]

pub cas_update-IsStored :
    (tools : StorageTools) (after : ReviewCase) (now : String) (applies : CaseRow → Bool)
    (rows : List CaseRow)
    → IsCanonical tools after
    → AllOf (IsStored tools) rows
    → AllOf (IsStored tools) (cas_update applies (updated_row tools after now) rows)
unfolding cas_row case_payload_json
cas_update-IsStored tools after now applies rows c stored =
    AllOf-cas_update (IsStored tools) applies (updated_row tools after now) rows
      (λ row. record { in_order = c.in_order; rounded = rw (c.rounded, c.rounded) refl }) stored

pub HasFreshId-appended :
    (store store' : ReviewStore) (row : EventRow)
    → HasFreshId store
    → row.event_id ≡ store.next_event_id
    → store'.review_case_events ≡ store.review_case_events ++ row ∷ []
    → store'.next_event_id ≡ store.next_event_id + 1
    → HasFreshId store'
HasFreshId-appended store store' row fresh id events next =
    rw (events, next)
      (AllOf-append (λ (r : EventRow). r.event_id < store.next_event_id + 1)
        store.review_case_events (row ∷ [])
        (AllOf-weaken (λ (r : EventRow). r.event_id < store.next_event_id)
          (λ (r : EventRow). r.event_id < store.next_event_id + 1) store.review_case_events
          (λ r h. omega arith) fresh)
        (omega (arith, id), tt))
