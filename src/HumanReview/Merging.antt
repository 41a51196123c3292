-- ===== src/HumanReview/Merging.antt =====
-- The loop over the MATCH pairs decides whether they link a NO_MATCH pair.
use ai_data_quality_platform.Base.{
  String, Bool, true, false, List, [], ◌∷◌, ◌||◌, ◌==◌, ◌≡◌, refl, sym, ap, ◌∙◌, ◌⊎◌, inl, inr,
  arith, contains, text_eq, eq_iff, subst, union_all, Result, ok, err, Bool-cases, add,
  contains-add, contains-sorted, contains-sorted_texts, contains-cons_cases, contains_cons, sorted,
  sorted_texts, contains_self,
}
use ai_data_quality_platform.Base.Assoc.{keys}
use ai_data_quality_platform.UnionFind.{Parent, find, union, members_of, singletons}
use ai_data_quality_platform.UnionFind.Forest.{IsKey, IsForest, Refines, Refines-trans}
use ai_data_quality_platform.UnionFind.Find.{Root-exists, find-IsFinder}
use ai_data_quality_platform.UnionFind.Partition.{
  JoinsExactly, union-JoinsExactly, singletons-IsKey,
}
use ai_data_quality_platform.UnionFind.Collect.{Collected, members_of-collects}
use ai_data_quality_platform.EntityResolution.Models.{RecordPair, pair_eq, pair_before}
use ai_data_quality_platform.HumanReview.Errors.{HumanReviewError, contradiction}
use ai_data_quality_platform.HumanReview.Constraints.{blocks, merge_matches, record_ids_of}
use ai_data_quality_platform.HumanReview.Linked.{Linked, Linked-more, Spans, Spans-join}
use ai_data_quality_platform.HumanReview.Guard.{
  IsClear, IsClear-join, Proposes, blocked_witness, blocked-Linked, members_of-Proposes,
  JoinsExactly-Refines,
}

-- The edges after a loop over `pairs` that accepts each.
abbrev pub onto : List RecordPair → List RecordPair → List RecordPair
onto [] edges = edges
onto (e ∷ pairs) edges = onto pairs (e ∷ edges)

pub contains-onto :
    (d : RecordPair) (pairs edges : List RecordPair)
    → contains d (onto pairs edges) ≡ (contains d pairs || contains d edges)
contains-onto d [] edges = refl
contains-onto d (e ∷ pairs) edges = ground (arith, contains-onto d pairs (e ∷ edges))

abbrev pub EndsAreKeys : List RecordPair → Parent → Type 0
EndsAreKeys pairs p =
    (e : RecordPair) → contains e pairs ≡ true → IsKey e.record_a_id p × IsKey e.record_b_id p

-- One round of the loop: what it tests, and what it does where the test passes.
record Round (e : RecordPair) (p : Parent) : Type 0 where
  left : List String
  right : List String
  searched_left : Parent
  searched : Parent
  joined : Bool
  after : Parent
  finds_left : members_of find e.record_a_id p ≡ ok (left, searched_left)
  finds_right : members_of find e.record_b_id searched_left ≡ ok (right, searched)
  unites : union find e.record_a_id e.record_b_id searched ≡ ok (joined, after)
  proposes : Proposes (union_all left right) p e.record_a_id e.record_b_id
  joins : JoinsExactly p after e.record_a_id e.record_b_id

round :
    (e : RecordPair) (p : Parent)
    → IsForest p
    → IsKey e.record_a_id p
    → IsKey e.record_b_id p
    → Round e p
round e p f ka kb =
    let (a, wl) = Root-exists e.record_a_id f ka in
    let (b, wr) = Root-exists e.record_b_id f kb in
    let c : Collected (λ root. root == a) (keys p) p (members_of find e.record_a_id p) =
      members_of-collects find find-IsFinder e.record_a_id a p f wl in
    let d : Collected (λ root. root == b) (keys c.after) c.after
        (members_of find e.record_b_id c.after) =
      members_of-collects find find-IsFinder e.record_b_id b c.after c.refines.forest
        (c.refines.roots e.record_b_id b wr) in
    let both : Refines p d.after = Refines-trans c.refines d.refines in
    let (answer, q, returns, _, j) =
      union-JoinsExactly find e.record_a_id e.record_b_id d.after find-IsFinder both.forest
        (rw both.same_keys ka) (rw both.same_keys kb) in
    record {
      left = c.members;
      right = d.members;
      searched_left = c.after;
      searched = d.after;
      joined = answer;
      after = q;
      finds_left = c.returns;
      finds_right = d.returns;
      unites = returns;
      proposes = members_of-Proposes f wl wr c.refines c d;
      joins = JoinsExactly-Refines f both e.record_a_id e.record_b_id ka kb j;
    }

pub or_right : (a : Bool) {b : Bool} → b ≡ true → (a || b) ≡ true
or_right a h = ground arith

-- A NO_MATCH pair that the edges would link.
abbrev pub Conflict : List RecordPair → List RecordPair → Type 0
Conflict no_match_pairs edges =
    (n : RecordPair) × (contains n no_match_pairs ≡ true) × Linked edges n.record_a_id n.record_b_id

module _ (no_match_pairs : List RecordPair) where
  -- What the loop ends with, from the edges that were accepted before it.
  abbrev pub Decided : List RecordPair → List RecordPair → Result HumanReviewError Parent → Type 0
  Decided pairs edges answer =
      ((answer ≡ err contradiction) × Conflict no_match_pairs (onto pairs edges))
      ⊎ ((q : Parent) × (answer ≡ ok q) × Spans (onto pairs edges) q × IsClear no_match_pairs q)

  merge_matches-blocked :
      (e : RecordPair) (pairs edges : List RecordPair) (p : Parent)
      → Spans edges p
      → IsKey e.record_a_id p
      → IsKey e.record_b_id p
      → (r : Round e p) → blocks (union_all r.left r.right) no_match_pairs ≡ true
      → Decided (e ∷ pairs) edges (merge_matches no_match_pairs (e ∷ pairs) p)
  unfolding merge_matches
  merge_matches-blocked e pairs edges p s ka kb r h =
      let (n, m, ta, tb) = blocked_witness no_match_pairs r.proposes h in
      let linked : Linked (e ∷ edges) n.record_a_id n.record_b_id =
        blocked-Linked e n.record_a_id n.record_b_id s ka kb ta tb in
      inl (
        rw r.finds_left (rw r.finds_right (rw h)),
        (
          n,
          m,
          Linked-more (λ d md. contains-onto d pairs (e ∷ edges) ∙ or_right (contains d pairs) md)
              linked,
        ),
      )

  merge_matches-free :
      (e : RecordPair) (pairs : List RecordPair) (p : Parent)
      → (r : Round e p) → blocks (union_all r.left r.right) no_match_pairs ≡ false
      → merge_matches no_match_pairs (e ∷ pairs) p ≡ merge_matches no_match_pairs pairs r.after
  unfolding merge_matches
  merge_matches-free e pairs p r h = rw r.finds_left (rw r.finds_right (rw h (rw r.unites)))

  -- The loop decides whether the accepted edges and its own link a NO_MATCH pair.
  pub merge_matches-Decided :
      (pairs edges : List RecordPair) (p : Parent)
      → Spans edges p
      → IsClear no_match_pairs p
      → EndsAreKeys pairs p
      → Decided pairs edges (merge_matches no_match_pairs pairs p)
  unfolding merge_matches
  merge_matches-Decided [] edges p s clear keyed = inr (p, refl, s, clear)
  merge_matches-Decided (e ∷ pairs) edges p s clear keyed =
      let (ka, kb) = keyed e (contains_self e pairs) in
      let r : Round e p = round e p s.forest ka kb in
      elim (Bool-cases (blocks (union_all r.left r.right) no_match_pairs)) [
        | inl blocked ↦ merge_matches-blocked e pairs edges p s ka kb r blocked
        | inr free ↦ subst (Decided (e ∷ pairs) edges) (sym (merge_matches-free e pairs p r free)) (
            merge_matches-Decided pairs (e ∷ edges) r.after (Spans-join e s ka kb r.joins)
              (IsClear-join no_match_pairs r.proposes r.joins free clear)
              (λ d m.
                let (da, db) = keyed d (contains_cons d e pairs m) in
                (rw r.joins.same_keys da, rw r.joins.same_keys db)))
      ]

record_ids_of-contains :
    (e : RecordPair) (pairs : List RecordPair)
    → contains e pairs ≡ true
    → (contains e.record_a_id (record_ids_of pairs) ≡ true)
      × (contains e.record_b_id (record_ids_of pairs) ≡ true)
unfolding record_ids_of
record_ids_of-contains e [] m = cc
record_ids_of-contains e (d ∷ pairs) m =
    let rest : List String = record_ids_of pairs in
    let ids : (x : String)
        → contains x (add d.record_a_id (add d.record_b_id rest))
          ≡ ((contains x rest || d.record_b_id == x) || d.record_a_id == x) =
      λ x.
        contains-add x d.record_a_id (add d.record_b_id rest)
        ∙ ap (λ b. b || d.record_a_id == x) (contains-add x d.record_b_id rest) in
    elim (contains-cons_cases e d pairs m) [
      | inl here ↦ (
        ids e.record_a_id
            ∙ ground (arith, ap (λ w. w.record_a_id) here, eq_iff d.record_a_id e.record_a_id),
        ids e.record_b_id
            ∙ ground (arith, ap (λ w. w.record_b_id) here, eq_iff d.record_b_id e.record_b_id),
      )
      | inr there ↦
          let (ma, mb) = record_ids_of-contains e pairs there in
          (ids e.record_a_id ∙ ground arith, ids e.record_b_id ∙ ground arith)
    ]

pub singletons-EndsAreKeys :
    (pairs : List RecordPair)
    → EndsAreKeys (sorted pair_before pairs) (singletons (sorted_texts (record_ids_of pairs)))
singletons-EndsAreKeys pairs e m =
    let (ma, mb) = record_ids_of-contains e pairs (sym (contains-sorted pair_before e pairs) ∙ m) in
    (
      singletons-IsKey e.record_a_id (sorted_texts (record_ids_of pairs))
          (contains-sorted_texts e.record_a_id (record_ids_of pairs) ∙ ma),
      singletons-IsKey e.record_b_id (sorted_texts (record_ids_of pairs))
          (contains-sorted_texts e.record_b_id (record_ids_of pairs) ∙ mb),
    )

pub onto-sorted :
    (e : RecordPair) (pairs : List RecordPair)
    → contains e (onto (sorted pair_before pairs) []) ≡ contains e pairs
onto-sorted e pairs =
    contains-onto e (sorted pair_before pairs) []
    ∙ (rw (contains-sorted pair_before e pairs) (ground arith))
