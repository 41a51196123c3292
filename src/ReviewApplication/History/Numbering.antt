-- ===== src/ReviewApplication/History/Numbering.antt =====
-- The sequences of a history that was rebuilt are 1, 2, 3, ... with no gap and no repeat.
use ai_data_quality_platform.Base.{
  ℕ, ◌+◌, true, false, not, List, [], ◌∷◌, nat_eq, ok, raise_if-false, returned-bind, ok-injective,
  sorted, length, ◌≡◌, refl, sym, ap, ◌∙◌, subst, arith,
}
use ai_data_quality_platform.Base.Assoc.{Dict}
use ai_data_quality_platform.Base.AllOf.{AllOf}
use ai_data_quality_platform.HumanReview.Models.{ReviewAuditEntry}
use ai_data_quality_platform.HumanReview.Workflow.Invariant.{NumberedFrom}
use ai_data_quality_platform.ReviewApplication.Models.{PersistedCase, ReviewEvent}
use ai_data_quality_platform.ReviewApplication.History.{
  ReconstructedHistory, index_events, collect_entries, assert_contiguous, sequence_before,
  cases_by_id, reconstruct_history,
}
use ai_data_quality_platform.ReviewApplication.History.Sorting.{IsBelow}

pub assert_contiguous-NumberedFrom :
    (k : ℕ) (entries : List ReviewAuditEntry)
    → assert_contiguous k entries ≡ ok tt
    → NumberedFrom k entries
unfolding assert_contiguous
assert_contiguous-NumberedFrom k [] h = tt
assert_contiguous-NumberedFrom k (e ∷ entries) h =
    let (u, rest, first) = returned-bind _ (λ _. assert_contiguous (k + 1) entries) h in
    let same : not (nat_eq e.resolution_sequence k) ≡ false = raise_if-false _ _ first in
    (ground arith, assert_contiguous-NumberedFrom (k + 1) entries rest)

pub NumberedFrom-assert_contiguous :
    (k : ℕ) (entries : List ReviewAuditEntry)
    → NumberedFrom k entries
    → assert_contiguous k entries ≡ ok tt
unfolding assert_contiguous
NumberedFrom-assert_contiguous k [] h = refl
NumberedFrom-assert_contiguous k (e ∷ entries) (h, rest) =
    let same : nat_eq e.resolution_sequence k ≡ true = ground arith in
    rw same (NumberedFrom-assert_contiguous (k + 1) entries rest)

pub NumberedFrom-IsBelow :
    (k n : ℕ) (entries : List ReviewAuditEntry)
    → NumberedFrom k entries
    → n ≡ k + length entries
    → AllOf (IsBelow n) entries
NumberedFrom-IsBelow k n [] h e = tt
NumberedFrom-IsBelow k n (x ∷ entries) (h, rest) e =
    (omega arith, NumberedFrom-IsBelow (k + 1) n entries rest (omega arith))

-- What a history that was rebuilt went through.
pub record Rebuilt (persisted : List PersistedCase) (events : List ReviewEvent)
    (h : ReconstructedHistory) : Type 0 where
  pub indexed : Dict ReviewEvent
  pub found : List ReviewAuditEntry
  pub indexing : index_events (cases_by_id persisted) [] events ≡ ok indexed
  pub collecting : collect_entries indexed (cases_by_id persisted) ≡ ok found
  pub numbered : NumberedFrom 1 (sorted sequence_before found)
  pub entries : h.audit_entries ≡ sorted sequence_before found
  pub next : h.next_resolution_sequence ≡ length (sorted sequence_before found) + 1

module _ (persisted : List PersistedCase) (events : List ReviewEvent)
    (h : ReconstructedHistory) where
  pub reconstruct_history-Rebuilt :
      reconstruct_history persisted events ≡ ok h → Rebuilt persisted events h
  unfolding reconstruct_history
  reconstruct_history-Rebuilt e =
      let (indexed, e1, indexing) =
        returned-bind (index_events (cases_by_id persisted) [] events) _ e in
      let (found, e2, collecting) =
        returned-bind (collect_entries indexed (cases_by_id persisted)) _ e1 in
      let (u, e3, contiguous) =
        returned-bind (assert_contiguous 1 (sorted sequence_before found)) _ e2 in
      record {
        indexed = indexed;
        found = found;
        indexing = indexing;
        collecting = collecting;
        numbered = assert_contiguous-NumberedFrom 1 (sorted sequence_before found) contiguous;
        entries = sym (ap (λ w. w.audit_entries) (ok-injective e3));
        next = sym (ap (λ w. w.next_resolution_sequence) (ok-injective e3));
      }

  pub Rebuilt-reconstruct_history :
      Rebuilt persisted events h → reconstruct_history persisted events ≡ ok h
  unfolding reconstruct_history
  Rebuilt-reconstruct_history r =
      rw
        (
          r.indexing,
          r.collecting,
          NumberedFrom-assert_contiguous 1 (sorted sequence_before r.found) r.numbered,
          r.entries,
          r.next,
        )
        refl

  pub reconstruct_history-NumberedFrom :
      reconstruct_history persisted events ≡ ok h
      → NumberedFrom 1 h.audit_entries × (h.next_resolution_sequence ≡ length h.audit_entries + 1)
  reconstruct_history-NumberedFrom e =
      let r : Rebuilt persisted events h = reconstruct_history-Rebuilt e in
      (
        subst (NumberedFrom 1) (sym r.entries) r.numbered,
        r.next ∙ ap (λ w. length w + 1) (sym r.entries),
      )
