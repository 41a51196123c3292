-- ===== src/ReviewApplication/History/Extension.antt =====
-- Resolving a pending case and appending its event extends the history by the entry of that event.
use ai_data_quality_platform.Base.{
  ◌+◌, String, true, false, List, [], ◌∷◌, ◌++◌, some, ok, sorted, length, length-append, ◌≡◌, sym,
  ap, ◌∙◌, subst, arith,
}
use ai_data_quality_platform.Base.Assoc.{lookup, insert, keys}
use ai_data_quality_platform.HumanReview.Models.{
  ReviewStatus, status_eq, ReviewAuditEntry, ReviewCase,
}
use ai_data_quality_platform.HumanReview.Workflow.Invariant.{
  AreDistinct, NumberedFrom, NumberedFrom-append,
}
use ai_data_quality_platform.ReviewApplication.Models.{PersistedCase, ReviewEvent, is_resolution}
use ai_data_quality_platform.ReviewApplication.History.{
  ReconstructedHistory, index_events, assert_event_agrees_with_case, entry_of, collect_entries,
  sequence_before, cases_by_id, reconstruct_history,
}
use ai_data_quality_platform.ReviewApplication.History.Sorting.{AllOf-of_sorted, IsBelow}
use ai_data_quality_platform.ReviewApplication.History.Index.{index_events-extended}
use ai_data_quality_platform.ReviewApplication.History.Entries.{collect_entries-Extends}
use ai_data_quality_platform.ReviewApplication.History.Numbering.{
  Rebuilt, NumberedFrom-IsBelow, reconstruct_history-Rebuilt, Rebuilt-reconstruct_history,
}

-- The case and the event that one resolution leaves behind.
pub record IsResolution (case_id : String) (event : ReviewEvent) (after : ReviewCase)
    (entry : ReviewAuditEntry) : Type 0 where
  pub settled : status_eq after.status ReviewStatus.pending ≡ false
  pub of_case : event.review_case_id ≡ case_id
  pub resolution : is_resolution event ≡ true
  pub agrees : assert_event_agrees_with_case event after ≡ ok tt
  pub made : entry_of after (some event) ≡ ok entry

module _ (case_id : String) (before after : ReviewCase) (event : ReviewEvent)
    (entry : ReviewAuditEntry) (persisted persisted' : List PersistedCase)
    (events : List ReviewEvent) (h : ReconstructedHistory)
    (distinct : AreDistinct (keys (cases_by_id persisted)))
    (stored : lookup case_id (cases_by_id persisted) ≡ some before)
    (pending : status_eq before.status ReviewStatus.pending ≡ true)
    (changed : cases_by_id persisted' ≡ insert case_id after (cases_by_id persisted))
    (resolved : IsResolution case_id event after entry) where
  Rebuilt-extended :
      Rebuilt persisted events h
      → entry.resolution_sequence ≡ h.next_resolution_sequence
      → Rebuilt persisted' (events ++ event ∷ []) (record {
        audit_entries = h.audit_entries ++ entry ∷ [];
        next_resolution_sequence = h.next_resolution_sequence + 1;
      })
  Rebuilt-extended r next =
      let old : List ReviewAuditEntry = sorted sequence_before r.found in
      let (indexing, absent) =
        index_events-extended case_id before after (cases_by_id persisted) stored pending events
          event r.indexed r.indexing resolved.of_case resolved.resolution resolved.agrees in
      let (found', collected, placed) =
        collect_entries-Extends case_id event r.indexed before after entry pending resolved.settled
          resolved.made (cases_by_id persisted) r.found distinct stored r.collecting
          (AllOf-of_sorted (IsBelow entry.resolution_sequence) sequence_before r.found (
            NumberedFrom-IsBelow 1 entry.resolution_sequence old r.numbered
              (omega (arith, r.next)))) in
      record {
        indexed = insert case_id event r.indexed;
        found = found';
        indexing = ap (λ w. index_events w [] (events ++ event ∷ [])) changed ∙ indexing;
        collecting = ap (collect_entries (insert case_id event r.indexed)) changed ∙ collected;
        numbered =
            subst (NumberedFrom 1) (sym placed)
              (NumberedFrom-append 1 old entry r.numbered (omega (arith, r.next)));
        entries = ap (λ w. w ++ entry ∷ []) r.entries ∙ sym placed;
        next = omega (arith, r.next, ap length placed, length-append old (entry ∷ []));
      }

  pub reconstruct_history-extended :
      reconstruct_history persisted events ≡ ok h
      → entry.resolution_sequence ≡ h.next_resolution_sequence
      → reconstruct_history persisted' (events ++ event ∷ [])
        ≡ ok (record {
          audit_entries = h.audit_entries ++ entry ∷ [];
          next_resolution_sequence = h.next_resolution_sequence + 1;
        })
  reconstruct_history-extended e next =
      Rebuilt-reconstruct_history persisted' (events ++ event ∷ []) _
        (Rebuilt-extended (reconstruct_history-Rebuilt persisted events h e) next)
