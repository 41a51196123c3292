-- ===== src/ReviewApplication/History/Entries.antt =====
-- The audit entries that are collected when a pending case is resolved: one more, which sorts to the end.
use ai_data_quality_platform.Base.{
  String, true, false, some, List, [], ◌∷◌, ◌++◌, ◌==◌, ok, ◌>>=◌, ok-injective, some-injective,
  returned-bind, ◌≡◌, ◌≢◌, refl, sym, ap, ◌∙◌, subst, inl, inr, arith, Bool-cases, text_cases,
  eq_iff, eq_false, contains, text_eq, sorted, insert_sorted,
}
use ai_data_quality_platform.Base.Assoc.{
  Dict, lookup, insert, keys, lookup-insert_ne, lookup-insert_self,
}
use ai_data_quality_platform.Base.AllOf.{AllOf, AllOf-sorted}
use ai_data_quality_platform.HumanReview.Models.{
  ReviewStatus, status_eq, ReviewAuditEntry, ReviewCase,
}
use ai_data_quality_platform.HumanReview.Workflow.Invariant.{AreDistinct}
use ai_data_quality_platform.ReviewApplication.Models.{ReviewEvent}
use ai_data_quality_platform.ReviewApplication.History.{entry_of, collect_entries, sequence_before}
use ai_data_quality_platform.ReviewApplication.History.Sorting.{
  insert_sorted-last, insert_sorted-append, IsBelow, AllOf-before,
}

-- One more round on a case that is not pending.
collect-settled :
    (events : Dict ReviewEvent) (k : String) (c : ReviewCase) (cases : Dict ReviewCase)
    → status_eq c.status ReviewStatus.pending ≡ false
    → collect_entries events ((k, c) ∷ cases)
      ≡ (entry_of c (lookup k events) >>= λ e. collect_entries events cases >>= λ r. ok (e ∷ r))
unfolding collect_entries
collect-settled events k c cases settled = rw settled refl

collect-pending :
    (events : Dict ReviewEvent) (k : String) (c : ReviewCase) (cases : Dict ReviewCase)
    → status_eq c.status ReviewStatus.pending ≡ true
    → collect_entries events ((k, c) ∷ cases) ≡ collect_entries events cases
unfolding collect_entries
collect-pending events k c cases pending = rw pending refl

module _ (case_id : String) (event : ReviewEvent) (indexed : Dict ReviewEvent) where
  -- An event of an absent case changes nothing.
  collect-unaffected :
      (cases : Dict ReviewCase)
      → contains case_id (keys cases) ≡ false
      → collect_entries (insert case_id event indexed) cases ≡ collect_entries indexed cases
  unfolding collect_entries keys
  collect-unaffected [] h = refl
  collect-unaffected ((k, c) ∷ cases) h =
      let other : case_id ≢ k = λ e. cc ((eq_iff k case_id).1 (sym e), h) in
      let rest : collect_entries (insert case_id event indexed) cases
          ≡ collect_entries indexed cases =
        collect-unaffected cases (ground arith) in
      rw (rest, lookup-insert_ne case_id k event indexed other) refl

module _ (case_id : String) (event : ReviewEvent) (indexed : Dict ReviewEvent)
    (before after : ReviewCase) (entry : ReviewAuditEntry)
    (pending : status_eq before.status ReviewStatus.pending ≡ true)
    (settled : status_eq after.status ReviewStatus.pending ≡ false)
    (made : entry_of after (some event) ≡ ok entry) where
  collect-at :
      (cases : Dict ReviewCase) (found : List ReviewAuditEntry)
      → contains case_id (keys cases) ≡ false
      → collect_entries indexed cases ≡ ok found
      → collect_entries (insert case_id event indexed) ((case_id, after) ∷ cases)
        ≡ ok (entry ∷ found)
  collect-at cases found absent h =
      collect-settled (insert case_id event indexed) case_id after cases settled
      ∙ rw
          (
            lookup-insert_self case_id event indexed,
            made,
            collect-unaffected case_id event indexed cases absent,
            h,
          )
          refl

  -- What the entries of the cases become: sorted, they have the new one at the end.
  abbrev pub Extends : Dict ReviewCase → List ReviewAuditEntry → Type 0
  Extends cases found =
      (found' : List ReviewAuditEntry) × (collect_entries (insert case_id event indexed) cases
        ≡ ok found')
      × (sorted sequence_before found' ≡ sorted sequence_before found ++ entry ∷ [])

  -- A settled case in front adds its entry to both.
  settled-Extends :
      (k : String) (c : ReviewCase) (cases : Dict ReviewCase) (e : ReviewAuditEntry)
      (r : List ReviewAuditEntry)
      → k ≢ case_id
      → status_eq c.status ReviewStatus.pending ≡ false
      → entry_of c (lookup k indexed) ≡ ok e
      → IsBelow entry.resolution_sequence e
      → Extends cases r
      → Extends ((k, c) ∷ cases) (e ∷ r)
  settled-Extends k c cases e r other done made_e below_e (found', collected, placed) =
      let there : lookup k (insert case_id event indexed) ≡ lookup k indexed =
        lookup-insert_ne case_id k event indexed (λ q. other (sym q)) in
      (
        e ∷ found',
        collect-settled (insert case_id event indexed) k c cases done
            ∙ rw (there, made_e, collected) refl,
        ap (insert_sorted sequence_before e) placed
            ∙ insert_sorted-append sequence_before e entry (sorted sequence_before r)
                (ground arith),
      )

  -- The case itself adds the new entry, in place of none.
  here-Extends :
      (cases : Dict ReviewCase) (found : List ReviewAuditEntry)
      → contains case_id (keys cases) ≡ false
      → collect_entries indexed cases ≡ ok found
      → AllOf (IsBelow entry.resolution_sequence) found
      → Extends ((case_id, after) ∷ cases) found
  here-Extends cases found absent rest below = (
    entry ∷ found,
    collect-at cases found absent rest,
    insert_sorted-last sequence_before entry (sorted sequence_before found) (
        AllOf-before entry (sorted sequence_before found)
          (AllOf-sorted (IsBelow entry.resolution_sequence) sequence_before found below)),
  )

  pending-Extends :
      (k : String) (c : ReviewCase) (cases : Dict ReviewCase) (found : List ReviewAuditEntry)
      → status_eq c.status ReviewStatus.pending ≡ true
      → Extends cases found
      → Extends ((k, c) ∷ cases) found
  pending-Extends k c cases found waiting (found', collected, placed) =
      (found', collect-pending (insert case_id event indexed) k c cases waiting ∙ collected, placed)

  pub collect_entries-Extends :
      (cases : Dict ReviewCase) (found : List ReviewAuditEntry)
      → AreDistinct (keys cases)
      → lookup case_id cases ≡ some before
      → collect_entries indexed cases ≡ ok found
      → AllOf (IsBelow entry.resolution_sequence) found
      → Extends (insert case_id after cases) found
  unfolding lookup insert keys
  collect_entries-Extends [] found distinct stored h below = cc
  collect_entries-Extends ((k, c) ∷ cases) found (absent, distinct) stored h below =
      elim (text_cases k case_id) [
        | inl same ↦
            let hit : (k == case_id) ≡ true = (eq_iff k case_id).1 same in
            let here : c ≡ before = some-injective (rw hit at stored) in
            let was : status_eq c.status ReviewStatus.pending ≡ true =
              ap (λ w. status_eq w.status ReviewStatus.pending) here ∙ pending in
            rw hit (
              subst (λ w. Extends ((w, after) ∷ cases) found) (sym same)
                (here-Extends cases found (ap (λ w. contains w (keys cases)) (sym same) ∙ absent)
                  (sym (collect-pending indexed k c cases was) ∙ h) below))
        | inr other ↦
            let miss : (k == case_id) ≡ false = eq_false k case_id other in
            let later : lookup case_id cases ≡ some before = rw miss at stored in
            elim (Bool-cases (status_eq c.status ReviewStatus.pending)) [
              | inl waiting ↦ rw miss (
                  pending-Extends k c (insert case_id after cases) found waiting (
                    collect_entries-Extends cases found distinct later
                      (sym (collect-pending indexed k c cases waiting) ∙ h) below))
              | inr done ↦
                  let (e, rest, made_e) =
                    returned-bind (entry_of c (lookup k indexed)) _
                      (sym (collect-settled indexed k c cases done) ∙ h) in
                  let (r, both, rest') = returned-bind (collect_entries indexed cases) _ rest in
                  let (he, hr) =
                    let b : AllOf (IsBelow entry.resolution_sequence) (e ∷ r) =
                      subst (AllOf (IsBelow entry.resolution_sequence)) (sym (ok-injective both))
                        below in
                    b in
                  rw miss (
                    subst (Extends ((k, c) ∷ insert case_id after cases)) (ok-injective both) (
                      settled-Extends k c (insert case_id after cases) e r other done made_e he
                        (collect_entries-Extends cases r distinct later rest' hr)))
            ]
      ]
