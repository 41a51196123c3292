-- ===== src/ReviewPersistence/Registration/Contexts.antt =====
-- The authorization context that a registration leaves for its queue.
use ai_data_quality_platform.Base.{
  String, Bool, true, false, not, raise_if, some-injective, eq_iff, eq_refl, Bool-cases, Option,
  none, some, List, [], ◌∷◌, ◌++◌, ◌==◌, ok, raise_if-false, returned-bind, ◌≡◌, refl, sym, ◌∙◌,
  text_eq, inl, inr,
}
use ai_data_quality_platform.EntityResolution.Models.{EntityRecord}
use ai_data_quality_platform.ReviewApplication.Errors.{workflow_context_conflict}
use ai_data_quality_platform.ReviewApplication.Bundle.{Snapshot}
use ai_data_quality_platform.ReviewPersistence.Rows.{StorageTools}
use ai_data_quality_platform.ReviewPersistence.Tables.{ContextRow}
use ai_data_quality_platform.ReviewPersistence.Repository.{fetchone}
use ai_data_quality_platform.ReviewPersistence.Context.{
  normalized_context_fingerprint, fingerprint_eq,
}
use ai_data_quality_platform.ReviewPersistence.Context.Fingerprints.{fingerprint_eq_refl}
use ai_data_quality_platform.ReviewPersistence.Registration.{
  assert_same_context, context_row, other_config,
}

fetchone-append :
    (test : ContextRow → Bool) (rows : List ContextRow) (row : ContextRow)
    → fetchone test rows ≡ none
    → test row ≡ true
    → fetchone test (rows ++ row ∷ []) ≡ some row
unfolding fetchone
fetchone-append test [] row absent accepted = rw accepted refl
fetchone-append test (r ∷ rows) row absent accepted = elim (Bool-cases (test r)) [
  | inl found ↦ cc (rw found at absent)
  | inr other ↦ rw other (fetchone-append test rows row (rw other at absent) accepted)
]

not-not : (b : Bool) → not b ≡ false → b ≡ true
not-not true h = refl
not-not false h = cc

-- Two paths that are not told apart.
agreed :
    (path stored : Option String)
    → other_config path stored ≡ false
    → (p q : String) → path ≡ some p
    → stored ≡ some q
    → p ≡ q
agreed none stored h p q hp hq = cc
agreed (some x) none h p q hp hq = cc
agreed (some x) (some y) h p q hp hq =
    sym (some-injective hp) ∙ (eq_iff x y).0 (not-not (x == y) h) ∙ some-injective hq

module _ (tools : StorageTools) (queue : String) where
  -- What `_store_context` left: the context of the queue, which agrees with the incoming one.
  pub record HoldsContext (records : List EntityRecord) (snapshot : Snapshot) (path : Option String)
      (contexts : List ContextRow) : Type 0 where
    pub stored : ContextRow
    pub there : fetchone (λ (row : ContextRow). row.review_queue_id == queue) contexts ≡ some stored
    pub same_context :
        fingerprint_eq
          (normalized_context_fingerprint stored.entity_records stored.resolution_snapshot)
          (normalized_context_fingerprint records snapshot)
        ≡ true
    pub same_config :
        (p q : String) → path ≡ some p → stored.entity_resolution_config_path ≡ some q → p ≡ q

  pub context_row-queue :
      (records : List EntityRecord) (snapshot : Snapshot) (path : Option String) (now : String)
      → (context_row tools queue records snapshot path now).review_queue_id ≡ queue
  unfolding context_row
  context_row-queue records snapshot path now = refl

  pub stored_anew :
      (records : List EntityRecord) (snapshot : Snapshot) (path : Option String) (now : String)
      (contexts : List ContextRow)
      → fetchone (λ (row : ContextRow). row.review_queue_id == queue) contexts ≡ none
      → HoldsContext records snapshot path
          (contexts ++ context_row tools queue records snapshot path now ∷ [])
  unfolding context_row
  stored_anew records snapshot path now contexts absent = record {
    stored = context_row tools queue records snapshot path now;
    there =
        fetchone-append (λ (row : ContextRow). row.review_queue_id == queue) contexts
          (context_row tools queue records snapshot path now) absent (eq_refl queue);
    same_context = fingerprint_eq_refl (normalized_context_fingerprint records snapshot);
    same_config = λ p q h k. some-injective (sym h ∙ k);
  }

  pub stored_before :
      (records : List EntityRecord) (snapshot : Snapshot) (path : Option String)
      (stored : ContextRow) (contexts : List ContextRow)
      → fetchone (λ (row : ContextRow). row.review_queue_id == queue) contexts ≡ some stored
      → assert_same_context tools queue records snapshot path stored ≡ ok tt
      → HoldsContext records snapshot path contexts
  unfolding assert_same_context
  stored_before records snapshot path stored contexts there h =
      let same : Bool =
        fingerprint_eq
          (normalized_context_fingerprint stored.entity_records stored.resolution_snapshot)
          (normalized_context_fingerprint records snapshot) in
      let (u, configs, fingerprints) =
        returned-bind (raise_if (not same) workflow_context_conflict) _ h in
      record {
        stored = stored;
        there = there;
        same_context =
            not-not same (raise_if-false (not same) workflow_context_conflict fingerprints);
        same_config = agreed path stored.entity_resolution_config_path (
            raise_if-false (other_config path stored.entity_resolution_config_path)
              workflow_context_conflict configs);
      }
