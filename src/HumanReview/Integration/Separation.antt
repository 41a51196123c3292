-- ===== src/HumanReview/Integration/Separation.antt =====
-- Both loops of human_review/integration.py return and keep the NO_MATCH pairs apart.
use ai_data_quality_platform.Base.{
  String, Bool, true, false, List, [], ◌∷◌, ◌++◌, ◌≡◌, refl, inl, inr, contains, text_eq, ok,
  Bool-cases, contains_self, contains_cons, subst, sorted_texts, contains-sorted_texts,
}
use ai_data_quality_platform.Base.AllOf.{AllOf}
use ai_data_quality_platform.Base.Assoc.{Dict, keys}
use ai_data_quality_platform.UnionFind.{Parent}
use ai_data_quality_platform.UnionFind.Forest.{IsForest}
use ai_data_quality_platform.EntityResolution.Models.{
  RecordPair, pair_eq, MatchDecision, EntityRecord, EntityResolutionConfig,
}
use ai_data_quality_platform.EntityResolution.Conflicts.{TextTools}
use ai_data_quality_platform.EntityResolution.Clustering.{is_auto_match}
use ai_data_quality_platform.EntityResolution.Severity.Totality.{guarded-returns}
use ai_data_quality_platform.HumanReview.Constraints.{blocks}
use ai_data_quality_platform.HumanReview.Authorization.{merge_edges, never_forced}
use ai_data_quality_platform.HumanReview.Integration.{join_auto, held_back}
use ai_data_quality_platform.HumanReview.Guard.{IsClear, IsClear-join}
use ai_data_quality_platform.HumanReview.Proposal.{
  Covers, Covers-keys, Proposal, proposal, IsClear-Refines, EndsListed,
}

-- The dictionary between two edges.
pub record Apart (no_match_pairs : List RecordPair) (members : List String) (p : Parent)
    : Type 0 where
  pub forest : IsForest p
  pub covers : Covers members p
  pub clear : IsClear no_match_pairs p

module _ (no_match_pairs : List RecordPair) (members : List String) where
  propose :
      (e : RecordPair) (p : Parent)
      → EndsListed members e
      → Apart no_match_pairs members p
      → Proposal members p e.record_a_id e.record_b_id
  propose e p (ma, mb) s =
      proposal members p e.record_a_id e.record_b_id s.forest s.covers
        (s.covers.stored e.record_a_id ma) (s.covers.stored e.record_b_id mb)

  Apart-searched :
      (e : RecordPair) (p : Parent)
      → Apart no_match_pairs members p
      → (r : Proposal members p e.record_a_id e.record_b_id)
      → Apart no_match_pairs members r.searched
  Apart-searched e p s r = record {
    forest = r.refines.forest;
    covers = Covers-keys r.refines.same_keys s.covers;
    clear = IsClear-Refines no_match_pairs s.forest r.refines s.clear;
  }

  Apart-joined :
      (e : RecordPair) (p : Parent)
      → Apart no_match_pairs members p
      → (r : Proposal members p e.record_a_id e.record_b_id)
      → blocks r.proposed no_match_pairs ≡ false
      → Apart no_match_pairs members r.after
  Apart-joined e p s r free = record {
    forest = r.joins.forest;
    covers = Covers-keys r.joins.same_keys s.covers;
    clear = IsClear-join no_match_pairs r.proposes r.joins free s.clear;
  }

  -- The loop over the human edges.
  pub merge_edges-Apart :
      (edges : List RecordPair) (p : Parent)
      → ((e : RecordPair) → contains e edges ≡ true → EndsListed members e)
      → Apart no_match_pairs members p
      → (q : Parent) × (merge_edges no_match_pairs members never_forced edges p ≡ ok q)
        × Apart no_match_pairs members q
  unfolding merge_edges never_forced
  merge_edges-Apart [] p listed s = (p, refl, s)
  merge_edges-Apart (e ∷ edges) p listed s =
      let r : Proposal members p e.record_a_id e.record_b_id =
        propose e p (listed e (contains_self e edges)) s in
      let later : (d : RecordPair) → contains d edges ≡ true → EndsListed members d =
        λ d h. listed d (contains_cons d e edges h) in
      elim (Bool-cases (blocks r.proposed no_match_pairs)) [
        | inl blocked ↦
            let (q, returns, after) =
              merge_edges-Apart edges r.searched later (Apart-searched e p s r) in
            (q, rw r.searches (rw blocked returns), after)
        | inr free ↦
            let (q, returns, after) =
              merge_edges-Apart edges r.after later (Apart-joined e p s r free) in
            (q, rw r.searches (rw free (rw r.unites returns)), after)
      ]

  module _ (tools : TextTools) (config : EntityResolutionConfig) (records : Dict EntityRecord)
      (known : (x : String) → contains x members ≡ true → contains x (keys records) ≡ true) where
    -- The two tests return; where they let an edge pass, it is not blocked.
    held_back-returns :
        (p : Parent) (e : RecordPair) (r : Proposal members p e.record_a_id e.record_b_id)
        → (held : Bool) × (held_back tools config records no_match_pairs r.proposed ≡ ok held)
          × (held ≡ false → blocks r.proposed no_match_pairs ≡ false)
    unfolding held_back
    held_back-returns p e r = elim (Bool-cases (blocks r.proposed no_match_pairs)) [
      | inl blocked ↦ (true, rw blocked refl, λ h. cc)
      | inr free ↦
          let (answer, returns) =
            guarded-returns tools config records (sorted_texts r.proposed) (λ x h.
              known x (
                r.from_members x (subst (λ b. b ≡ true) (contains-sorted_texts x r.proposed) h))) in
          (answer, rw free returns, λ h. free)
    ]

    -- The loop over the automatic edges.
    pub join_auto-Apart :
        (decisions : List MatchDecision) (accepted : List RecordPair) (p : Parent)
        → AllOf (λ d. (is_auto_match d.decision ≡ true → EndsListed members d.pair)) decisions
        → Apart no_match_pairs members p
        → (edges : List RecordPair) × (q : Parent) × (join_auto tools config records no_match_pairs
              members decisions accepted p
            ≡ ok (edges, q))
          × Apart no_match_pairs members q
    unfolding join_auto
    join_auto-Apart [] accepted p listed s = (accepted, p, refl, s)
    join_auto-Apart (d ∷ decisions) accepted p (first, listed) s =
        elim (Bool-cases (is_auto_match d.decision)) [
          | inr other ↦
              let (edges, q, returns, after) = join_auto-Apart decisions accepted p listed s in
              (edges, q, rw other returns, after)
          | inl auto ↦
              let r : Proposal members p d.pair.record_a_id d.pair.record_b_id =
                propose d.pair p (first auto) s in
              let (held, tested, passes) = held_back-returns p d.pair r in
              elim (Bool-cases held) [
                | inl blocked ↦
                    let (edges, q, returns, after) =
                      join_auto-Apart decisions accepted r.searched listed
                        (Apart-searched d.pair p s r) in
                    (edges, q, rw auto (rw r.searches (rw tested (rw blocked returns))), after)
                | inr free ↦
                    let (edges, q, returns, after) =
                      join_auto-Apart decisions (accepted ++ d.pair ∷ []) r.after listed
                        (Apart-joined d.pair p s r (passes free)) in
                    (
                      edges,
                      q,
                      rw auto (rw r.searches (rw tested (rw free (rw r.unites returns)))),
                      after,
                    )
              ]
        ]
