-- ===== src/HumanReview/Authorization/Growth.antt =====
-- The loops over the edges only join components, and join the forced edges.
use ai_data_quality_platform.Base.{
  String, Bool, true, not, List, [], ◌∷◌, ◌&&◌, ◌≡◌, refl, ap, ◌∙◌, inl, inr, arith, contains,
  text_eq, Result, ok, Bool-cases, contains_self, contains_cons, contains-cons_cases, subst,
}
use ai_data_quality_platform.UnionFind.{Parent, Fault}
use ai_data_quality_platform.UnionFind.Forest.{IsKey, IsForest, Root-IsKey}
use ai_data_quality_platform.UnionFind.Partition.{SameTree}
use ai_data_quality_platform.EntityResolution.Models.{RecordPair, pair_eq}
use ai_data_quality_platform.HumanReview.Constraints.{blocks}
use ai_data_quality_platform.HumanReview.Linked.{SameTree-self, SameTree-Refines}
use ai_data_quality_platform.HumanReview.Authorization.{merge_edges}
use ai_data_quality_platform.HumanReview.Proposal.{
  Covers, Covers-keys, Proposal, proposal, EndsListed,
}

-- After a loop over the edges: nothing comes apart, and the forced edges are joined.
pub record Grown (members : List String) (forced : RecordPair → Bool) (edges : List RecordPair)
    (p : Parent) (answer : Result Fault Parent) : Type 0 where
  pub after : Parent
  pub returns : answer ≡ ok after
  pub forest : IsForest after
  pub covers : Covers members after
  pub keeps : (x y : String) → SameTree p x y → SameTree after x y
  pub joins :
      (e : RecordPair)
      → contains e edges ≡ true
      → forced e ≡ true
      → SameTree after e.record_a_id e.record_b_id

module _ (no_match_pairs : List RecordPair) (members : List String)
    (forced : RecordPair → Bool) where
  pub merge_edges-Grown :
      (edges : List RecordPair) (p : Parent)
      → ((e : RecordPair) → contains e edges ≡ true → EndsListed members e)
      → IsForest p
      → Covers members p
      → Grown members forced edges p (merge_edges no_match_pairs members forced edges p)
  unfolding merge_edges
  merge_edges-Grown [] p listed f c = record {
    after = p;
    returns = refl;
    forest = f;
    covers = c;
    keeps = λ x y h. h;
    joins = λ e m forced_e. cc;
  }
  merge_edges-Grown (e ∷ edges) p listed f c =
      let (ma, mb) = listed e (contains_self e edges) in
      let ka : IsKey e.record_a_id p = c.stored e.record_a_id ma in
      let kb : IsKey e.record_b_id p = c.stored e.record_b_id mb in
      let r : Proposal members p e.record_a_id e.record_b_id =
        proposal members p e.record_a_id e.record_b_id f c ka kb in
      let later : (d : RecordPair) → contains d edges ≡ true → EndsListed members d =
        λ d h. listed d (contains_cons d e edges h) in
      elim (Bool-cases (not (forced e) && blocks r.proposed no_match_pairs)) [
        | inl passed ↦
            let g : Grown members forced edges r.searched
                (merge_edges no_match_pairs members forced edges r.searched) =
              merge_edges-Grown edges r.searched later r.refines.forest
                (Covers-keys r.refines.same_keys c) in
            record {
              after = g.after;
              returns = rw r.searches (rw passed g.returns);
              forest = g.forest;
              covers = g.covers;
              keeps = λ x y h. g.keeps x y (SameTree-Refines r.refines h);
              joins = λ d m forced_d. elim (contains-cons_cases d e edges m) [
                | inl same ↦
                    let forced_e : forced e ≡ true = ap forced same ∙ forced_d in
                    absurd (ground arith)
                | inr there ↦ g.joins d there forced_d
              ];
            }
        | inr joined ↦
            let g : Grown members forced edges r.after
                (merge_edges no_match_pairs members forced edges r.after) =
              merge_edges-Grown edges r.after later r.joins.forest
                (Covers-keys r.joins.same_keys c) in
            let keep : (x y : String) → SameTree p x y → SameTree r.after x y =
              λ x y h. (r.joins.components x y (Root-IsKey h.1) (Root-IsKey h.2)).1 (inl h) in
            record {
              after = g.after;
              returns = rw r.searches (rw joined (rw r.unites g.returns));
              forest = g.forest;
              covers = g.covers;
              keeps = λ x y h. g.keeps x y (keep x y h);
              joins = λ d m forced_d. elim (contains-cons_cases d e edges m) [
                | inl same ↦
                    subst (λ w. SameTree g.after w.record_a_id w.record_b_id) same
                      (g.keeps e.record_a_id e.record_b_id (
                        (r.joins.components e.record_a_id e.record_b_id ka kb).1
                          (inr (inl (SameTree-self f ka refl), inr (SameTree-self f kb refl)))))
                | inr there ↦ g.joins d there forced_d
              ];
            }
      ]
