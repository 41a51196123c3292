-- ===== src/HumanReview/Guard.antt =====
-- The guard of every merge loop: the ids that a merge would bring together are computed first, and
-- the merge is held back when both ends of a NO_MATCH pair are among them.
use ai_data_quality_platform.Base.{
  String, true, false, List, ◌∷◌, ◌&&◌, ◌||◌, ◌==◌, ◌≡◌, sym, ◌∙◌, ◌≢◌, ◌↔◌, ◌⊎◌, inl, inr, arith,
  contains, text_eq, eq_iff, subst, any_witness, any_none, contains-union_all, union_all, Result,
}
use ai_data_quality_platform.Base.Assoc.{keys}
use ai_data_quality_platform.UnionFind.{Parent, Fault}
use ai_data_quality_platform.UnionFind.Forest.{
  IsKey, IsForest, Root, Root-IsKey, Root-unique, Refines,
}
use ai_data_quality_platform.UnionFind.Find.{Root-exists}
use ai_data_quality_platform.UnionFind.Partition.{SameTree, Touches, JoinsExactly}
use ai_data_quality_platform.UnionFind.Collect.{Collected, AllKeys}
use ai_data_quality_platform.EntityResolution.Models.{RecordPair, pair_eq}
use ai_data_quality_platform.HumanReview.Constraints.{blocks}
use ai_data_quality_platform.HumanReview.Linked.{
  Linked, Spans, touching_both-Linked, SameTree-back, SameTree-Refines,
}

-- No NO_MATCH pair of two different records lies in one component.
abbrev pub IsClear : List RecordPair → Parent → Type 0
IsClear no_match_pairs p =
    (n : RecordPair)
    → contains n no_match_pairs ≡ true
    → n.record_a_id ≢ n.record_b_id
    → SameTree p n.record_a_id n.record_b_id
    → ⊥

-- `proposed` is what would become one component with `left` and `right`.
pub record Proposes (proposed : List String) (p : Parent) (left right : String) : Type 0 where
  pub complete : (x : String) → IsKey x p → Touches p left right x → contains x proposed ≡ true
  pub sound : (x : String) → contains x proposed ≡ true → Touches p left right x

module _ {proposed : List String} {p : Parent} {left right : String}
    (no_match_pairs : List RecordPair) (pr : Proposes proposed p left right) where
  -- A merge that is not blocked keeps the NO_MATCH pairs apart.
  pub IsClear-join :
      {q : Parent}
      → JoinsExactly p q left right
      → blocks proposed no_match_pairs ≡ false
      → IsClear no_match_pairs p
      → IsClear no_match_pairs q
  unfolding blocks
  IsClear-join {q} j free clear n m ne h =
      let ka : IsKey n.record_a_id p =
        subst (λ ks. contains n.record_a_id ks ≡ true) j.same_keys (Root-IsKey h.1) in
      let kb : IsKey n.record_b_id p =
        subst (λ ks. contains n.record_b_id ks ≡ true) j.same_keys (Root-IsKey h.2) in
      elim ((j.components n.record_a_id n.record_b_id ka kb).0 h) [
        | inl old ↦ clear n m ne old
        | inr (ta, tb) ↦
            let fa : contains n.record_a_id proposed ≡ true = pr.complete n.record_a_id ka ta in
            let fb : contains n.record_b_id proposed ≡ true = pr.complete n.record_b_id kb tb in
            let both : (contains n.record_a_id proposed && contains n.record_b_id proposed)
                ≡ false =
              any_none (λ w. contains w.record_a_id proposed && contains w.record_b_id proposed) n
                no_match_pairs free m in
            ground arith
      ]

  -- A merge that is blocked would link the ends of a NO_MATCH pair.
  pub blocked_witness :
      blocks proposed no_match_pairs ≡ true
      → (n : RecordPair) × (contains n no_match_pairs ≡ true)
        × Touches p left right n.record_a_id
        × Touches p left right n.record_b_id
  unfolding blocks
  blocked_witness h =
      let (n, m, found) =
        any_witness (λ w. contains w.record_a_id proposed && contains w.record_b_id proposed)
          no_match_pairs h in
      (n, m, pr.sound n.record_a_id (ground arith), pr.sound n.record_b_id (ground arith))

Touches-IsKey : {p : Parent} (left right x : String) → Touches p left right x → IsKey x p
Touches-IsKey left right x (inl h) = Root-IsKey h.1
Touches-IsKey left right x (inr h) = Root-IsKey h.1

pub blocked-Linked :
    {edges : List RecordPair} {p : Parent} (e : RecordPair) (x y : String)
    → Spans edges p
    → IsKey e.record_a_id p
    → IsKey e.record_b_id p
    → Touches p e.record_a_id e.record_b_id x
    → Touches p e.record_a_id e.record_b_id y
    → Linked (e ∷ edges) x y
blocked-Linked e x y s ka kb tx ty =
    touching_both-Linked e s ka kb x y (Touches-IsKey e.record_a_id e.record_b_id x tx)
      (Touches-IsKey e.record_a_id e.record_b_id y ty) tx ty

key_of_either :
    (x : String) (cs ds ks : List String)
    → (contains x cs ≡ true → contains x ks ≡ true)
    → (contains x ds ≡ true → contains x ks ≡ true)
    → (contains x cs || contains x ds) ≡ true
    → contains x ks ≡ true
key_of_either x cs ds ks from_c from_d h = ground (arith, from_c, from_d)

module _ {p : Parent} {left right a b : String} (f : IsForest p) (wl : Root p left a)
    (wr : Root p right b) where
  Root-of_touching : {x s : String} → Root p x s → Touches p left right x → (s ≡ a) ⊎ (s ≡ b)
  Root-of_touching way (inl (r, wx, w)) = inl (Root-unique way wx ∙ Root-unique w wl)
  Root-of_touching way (inr (r, wx, w)) = inr (Root-unique way wx ∙ Root-unique w wr)

  Touches-of_Root : {x s : String} → Root p x s → (s ≡ a) ⊎ (s ≡ b) → Touches p left right x
  Touches-of_Root {x} way (inl e) = inl (a, subst (λ w. Root p x w) e way, wl)
  Touches-of_Root {x} way (inr e) = inr (b, subst (λ w. Root p x w) e way, wr)

  -- `component_members(left, right)` over all ids proposes the two components.
  pub Collected-Proposes :
      (ids : List String) (answer : Result Fault (List String × Parent))
      → AllKeys ids p
      → ((x : String) → IsKey x p → contains x ids ≡ true)
      → (c : Collected (λ root. root == a || root == b) ids p answer)
      → Proposes c.members p left right
  Collected-Proposes ids answer keyed full c = record {
    complete = λ x k t.
        let (s, way) = Root-exists x f k in
        let at : (s ≡ a) ⊎ (s ≡ b) = Root-of_touching way t in
        c.exact x s (full x k) way ∙ ground (arith, eq_iff s a, eq_iff s b);
    sound = λ x h.
        let k : IsKey x p = keyed x (c.from_ids x h) in
        let (s, way) = Root-exists x f k in
        let at : (s == a || s == b) ≡ true = sym (c.exact x s (c.from_ids x h) way) ∙ h in
        Touches-of_Root way (ground (arith, eq_iff s a, eq_iff s b));
  }

  -- So do the two calls of `members_of`, whose answers are put together.
  pub members_of-Proposes :
      {p' : Parent} {answer answer' : Result Fault (List String × Parent)}
      → Refines p p'
      → (c : Collected (λ root. root == a) (keys p) p answer)
      → (d : Collected (λ root. root == b) (keys p') p' answer')
      → Proposes (union_all c.members d.members) p left right
  members_of-Proposes {p'} step c d = record {
    complete = λ x k t.
        let (s, way) = Root-exists x f k in
        let at : (s ≡ a) ⊎ (s ≡ b) = Root-of_touching way t in
        let in_c : contains x c.members ≡ (s == a) = c.exact x s k way in
        let in_d : contains x d.members ≡ (s == b) =
          d.exact x s (rw step.same_keys k) (step.roots x s way) in
        contains-union_all x c.members d.members ∙ ground (arith, eq_iff s a, eq_iff s b);
    sound = λ x h.
        let either : (contains x c.members || contains x d.members) ≡ true =
          sym (contains-union_all x c.members d.members) ∙ h in
        let k : IsKey x p =
          key_of_either x c.members d.members (keys p) (c.from_ids x)
            (λ m. rw step.same_keys at (d.from_ids x m)) either in
        let (s, way) = Root-exists x f k in
        let in_c : contains x c.members ≡ (s == a) = c.exact x s k way in
        let in_d : contains x d.members ≡ (s == b) =
          d.exact x s (rw step.same_keys k) (step.roots x s way) in
        Touches-of_Root way (ground (arith, eq_iff s a, eq_iff s b));
  }

Touches-Refines :
    {p s : Parent} (left right x : String)
    → Refines p s
    → Touches p left right x
    → Touches s left right x
Touches-Refines left right x f (inl h) = inl (SameTree-Refines f h)
Touches-Refines left right x f (inr h) = inr (SameTree-Refines f h)

module _ {p s : Parent} (f : IsForest p) (g : Refines p s) (left right : String) (kl : IsKey left p)
    (kr : IsKey right p) where
  Touches-back : (x : String) → IsKey x p → Touches s left right x → Touches p left right x
  Touches-back x k (inl h) = inl (SameTree-back f g k kl h)
  Touches-back x k (inr h) = inr (SameTree-back f g k kr h)

  either_back :
      (x y : String)
      → IsKey x p
      → IsKey y p
      → SameTree s x y ⊎ (Touches s left right x × Touches s left right y)
      → SameTree p x y ⊎ (Touches p left right x × Touches p left right y)
  either_back x y kx ky (inl h) = inl (SameTree-back f g kx ky h)
  either_back x y kx ky (inr (tx, ty)) = inr (Touches-back x kx tx, Touches-back y ky ty)

  either_forth :
      (x y : String)
      → SameTree p x y ⊎ (Touches p left right x × Touches p left right y)
      → SameTree s x y ⊎ (Touches s left right x × Touches s left right y)
  either_forth x y (inl h) = inl (SameTree-Refines g h)
  either_forth x y (inr (tx, ty)) =
      inr (Touches-Refines left right x g tx, Touches-Refines left right y g ty)

  -- Searches before a `union` change nothing about what it joins.
  pub JoinsExactly-Refines :
      {q : Parent} → JoinsExactly s q left right → JoinsExactly p q left right
  JoinsExactly-Refines {q} j = record {
    forest = j.forest;
    same_keys = j.same_keys ∙ g.same_keys;
    components = λ x y kx ky.
        let now : SameTree q x y
            ↔ (SameTree s x y ⊎ (Touches s left right x × Touches s left right y)) =
          j.components x y (rw g.same_keys kx) (rw g.same_keys ky) in
        (λ h. either_back x y kx ky (now.0 h), λ h. now.1 (either_forth x y h));
  }
