-- ===== src/EntityResolution/Clustering/Merging.antt =====
-- The merge loop returns, and the components are what the accepted edges link.
use ai_data_quality_platform.Base.{
  ℕ, ◌+◌, String, true, List, [], ◌∷◌, ◌++◌, ◌||◌, ◌==◌, ◌≡◌, refl, sym, ◌∙◌, inl, inr, contains,
  text_eq, Result, ok, Bool-cases, contains-cons_cases, contains-sorted_texts, subst, sorted_texts,
  eq_iff,
}
use ai_data_quality_platform.Base.AllOf.{AllOf}
use ai_data_quality_platform.Base.Assoc.{Dict, keys}
use ai_data_quality_platform.UnionFind.{Parent, Fault, find, members_with_root}
use ai_data_quality_platform.UnionFind.Forest.{IsKey, IsForest, Root, Refines, Refines-trans, Found}
use ai_data_quality_platform.UnionFind.Find.{find-IsFinder, Root-back}
use ai_data_quality_platform.UnionFind.Partition.{SameTree, JoinsExactly, union-JoinsExactly}
use ai_data_quality_platform.UnionFind.Collect.{Collected, members_with_root-collects}
use ai_data_quality_platform.EntityResolution.Models.{
  RecordPair, pair_eq, MatchDecision, EntityRecord, EntityResolutionConfig,
}
use ai_data_quality_platform.EntityResolution.Conflicts.{TextTools}
use ai_data_quality_platform.EntityResolution.Severity.Totality.{guarded-returns}
use ai_data_quality_platform.EntityResolution.Clustering.{merge_auto}
use ai_data_quality_platform.HumanReview.Linked.{Spans, Spans-join, Spans-Refines}
use ai_data_quality_platform.HumanReview.Guard.{JoinsExactly-Refines}
use ai_data_quality_platform.HumanReview.Proposal.{Covers, Covers-keys, EndsListed}
use ai_data_quality_platform.EntityResolution.Clustering.Edges.{
  Spans-same_edges, last_first, Spans-known,
}

-- The two searches of a round.
record Searched (p : Parent) (e : RecordPair) : Type 0 where
  left : Found p e.record_a_id (find e.record_a_id p)
  right : Found left.after e.record_b_id (find e.record_b_id left.after)
  both : Refines p right.after
  way_right : Root p e.record_b_id right.root

searched :
    (p : Parent) (e : RecordPair)
    → IsForest p
    → IsKey e.record_a_id p
    → IsKey e.record_b_id p
    → Searched p e
searched p e f ka kb =
    let l : Found p e.record_a_id (find e.record_a_id p) =
      find-IsFinder.finds e.record_a_id p f ka in
    let r : Found l.after e.record_b_id (find e.record_b_id l.after) =
      find-IsFinder.finds e.record_b_id l.after l.refines.forest (rw l.refines.same_keys kb) in
    record {
      left = l;
      right = r;
      both = Refines-trans l.refines r.refines;
      way_right = Root-back f l.refines kb r.way;
    }

module _ (tools : TextTools) (config : EntityResolutionConfig) (records : Dict EntityRecord)
    (members : List String) (edges : List RecordPair)
    (known : (x : String) → contains x members ≡ true → contains x (keys records) ≡ true) where
  -- What the loop ends with.
  pub record Merged (answer : Result Fault (List RecordPair × (ℕ × Parent))) : Type 0 where
    pub accepted : List RecordPair
    pub held : ℕ
    pub after : Parent
    pub returns : answer ≡ ok (accepted, (held, after))
    pub spans : Spans accepted after
    pub covers : Covers members after
    pub from_edges : (e : RecordPair) → contains e accepted ≡ true → contains e edges ≡ true

  unfoldable pub AllListed : List MatchDecision → Type 0
  AllListed decisions =
      AllOf (λ d. (EndsListed members d.pair) × (contains d.pair edges ≡ true)) decisions

  accepts :
      (e : RecordPair) (accepted : List RecordPair)
      → contains e edges ≡ true
      → ((d : RecordPair) → contains d accepted ≡ true → contains d edges ≡ true)
      → (d : RecordPair) → contains d (accepted ++ e ∷ []) ≡ true
      → contains d edges ≡ true
  accepts e accepted m sub d h =
      elim (contains-cons_cases d e accepted (sym (last_first e d accepted) ∙ h)) [
        | inl same ↦ subst (λ w. contains w edges ≡ true) same m
        | inr there ↦ sub d there
      ]

  pub merge_auto-Merged :
      (decisions : List MatchDecision) (accepted : List RecordPair) (held : ℕ) (p : Parent)
      → AllListed decisions
      → Spans accepted p
      → Covers members p
      → ((d : RecordPair) → contains d accepted ≡ true → contains d edges ≡ true)
      → Merged (merge_auto tools config records members decisions accepted held p)
  unfolding merge_auto AllListed
  merge_auto-Merged [] accepted held p listed s c sub = record {
    accepted = accepted;
    held = held;
    after = p;
    returns = refl;
    spans = s;
    covers = c;
    from_edges = sub;
  }
  merge_auto-Merged (d ∷ decisions) accepted held p (((ma, mb), m), listed) s c sub =
      let ka : IsKey d.pair.record_a_id p = c.stored d.pair.record_a_id ma in
      let kb : IsKey d.pair.record_b_id p = c.stored d.pair.record_b_id mb in
      let r : Searched p d.pair = searched p d.pair s.forest ka kb in
      let more : (w : RecordPair)
          → contains w (accepted ++ d.pair ∷ []) ≡ true
          → contains w edges ≡ true =
        accepts d.pair accepted m sub in
      let covered : Covers members r.right.after = Covers-keys r.both.same_keys c in
      elim (Bool-cases (r.left.root == r.right.root)) [
        | inl one ↦
            let tree : SameTree p d.pair.record_a_id d.pair.record_b_id = (
              r.right.root,
              subst (λ w. Root p d.pair.record_a_id w) ((eq_iff r.left.root r.right.root).0 one)
                  r.left.way,
              r.way_right,
            ) in
            let g : Merged (
                merge_auto tools config records members decisions (accepted ++ d.pair ∷ []) held
                  r.right.after) =
              merge_auto-Merged decisions (accepted ++ d.pair ∷ []) held r.right.after listed
                (Spans-same_edges (λ w. last_first d.pair w accepted)
                  (Spans-Refines (Spans-known d.pair s tree) r.both))
                covered more in
            record {
              accepted = g.accepted;
              held = g.held;
              after = g.after;
              returns = rw r.left.returns (rw r.right.returns (rw one g.returns));
              spans = g.spans;
              covers = g.covers;
              from_edges = g.from_edges;
            }
        | inr two ↦
            let c2 : Collected (λ root. root == r.left.root || root == r.right.root) members
                r.right.after
                (members_with_root find (λ root. root == r.left.root || root == r.right.root)
                  members r.right.after) =
              members_with_root-collects find find-IsFinder
                (λ root. root == r.left.root || root == r.right.root) members r.right.after
                r.both.forest covered.stored in
            let all : Refines p c2.after = Refines-trans r.both c2.refines in
            let covered2 : Covers members c2.after = Covers-keys all.same_keys c in
            let (conflicting, tested) =
              guarded-returns tools config records (sorted_texts c2.members) (λ x h.
                known x
                  (c2.from_ids x (subst (λ b. b ≡ true) (contains-sorted_texts x c2.members) h))) in
            elim (Bool-cases conflicting) [
              | inl blocked ↦
                  let g : Merged (
                      merge_auto tools config records members decisions accepted (held + 1)
                        c2.after) =
                    merge_auto-Merged decisions accepted (held + 1) c2.after listed
                      (Spans-Refines s all) covered2 sub in
                  record {
                    accepted = g.accepted;
                    held = g.held;
                    after = g.after;
                    returns = rw r.left.returns (
                        rw r.right.returns
                          (rw two (rw c2.returns (rw tested (rw blocked g.returns)))));
                    spans = g.spans;
                    covers = g.covers;
                    from_edges = g.from_edges;
                  }
              | inr free ↦
                  let (answer, q, returns, _, j) =
                    union-JoinsExactly find d.pair.record_a_id d.pair.record_b_id c2.after
                      find-IsFinder all.forest (rw all.same_keys ka) (rw all.same_keys kb) in
                  let joined : JoinsExactly p q d.pair.record_a_id d.pair.record_b_id =
                    JoinsExactly-Refines s.forest all d.pair.record_a_id d.pair.record_b_id ka kb
                      j in
                  let g : Merged (
                      merge_auto tools config records members decisions (accepted ++ d.pair ∷ [])
                        held q) =
                    merge_auto-Merged decisions (accepted ++ d.pair ∷ []) held q listed
                      (Spans-same_edges (λ w. last_first d.pair w accepted)
                        (Spans-join d.pair s ka kb joined))
                      (Covers-keys joined.same_keys c) more in
                  record {
                    accepted = g.accepted;
                    held = g.held;
                    after = g.after;
                    returns = rw r.left.returns (
                        rw r.right.returns
                          (rw two (rw c2.returns (rw tested (rw free (rw returns g.returns))))));
                    spans = g.spans;
                    covers = g.covers;
                    from_edges = g.from_edges;
                  }
            ]
      ]
