-- ===== src/UnionFind/Collect.antt =====
-- The set comprehensions over `find` return the ids of the wanted components.
use ai_data_quality_platform.Base.{
  String, Bool, true, List, [], ◌∷◌, ◌==◌, ◌||◌, ◌≡◌, refl, sym, ap, ◌∙◌, ◌≢◌, inl, inr, arith,
  contains, text_eq, eq_iff, eq_refl, text_cases, subst, Result, ok, if◌then◌else◌,
}
use ai_data_quality_platform.Base.Assoc.{keys}
use ai_data_quality_platform.UnionFind.{
  Parent, Fault, Finder, members_with_root, component_members, members_of,
}
use ai_data_quality_platform.UnionFind.Forest.{
  IsKey, IsForest, Root, Root-unique, Refines, Refines-refl, Refines-trans, Found, IsFinder,
  Root-IsKey,
}

abbrev pub AllKeys : List String → Parent → Type 0
AllKeys ids p = (m : String) → contains m ids ≡ true → IsKey m p

-- The answer of a comprehension over `ids` that keeps the ids whose root is wanted.
pub record Collected (wanted : String → Bool) (ids : List String) (p : Parent)
    (answer : Result Fault (List String × Parent)) : Type 0 where
  pub members : List String
  pub after : Parent
  pub returns : answer ≡ ok (members, after)
  pub refines : Refines p after
  pub from_ids : (m : String) → contains m members ≡ true → contains m ids ≡ true
  pub exact : (m r : String) → contains m ids ≡ true → Root p m r → contains m members ≡ wanted r

module _ (x m : String) (ids members : List String) (keep : Bool)
    (from_ids : contains m members ≡ true → contains m ids ≡ true) where
  kept_from_ids :
      contains m (if keep then x ∷ members else members) ≡ true → contains m (x ∷ ids) ≡ true
  kept_from_ids h = ground (arith, from_ids)

  kept_self :
      x ≡ m
      → (contains m ids ≡ true → contains m members ≡ keep)
      → contains m (if keep then x ∷ members else members) ≡ keep
  kept_self same exact = ground (arith, from_ids, exact, eq_iff x m)

  kept_other :
      x ≢ m
      → contains m (x ∷ ids) ≡ true
      → (contains m ids ≡ true)
        × (contains m (if keep then x ∷ members else members) ≡ contains m members)
  kept_other other h = ground (arith, eq_iff x m)

module _ (search_root : Finder) (laws : IsFinder search_root) where
  pub members_with_root-collects :
      (wanted : String → Bool) (ids : List String) (p : Parent)
      → IsForest p
      → AllKeys ids p
      → Collected wanted ids p (members_with_root search_root wanted ids p)
  unfolding members_with_root
  members_with_root-collects wanted [] p f k = record {
    members = [];
    after = p;
    returns = refl;
    refines = Refines-refl f;
    from_ids = λ m h. h;
    exact = λ m r h w. cc;
  }
  members_with_root-collects wanted (x ∷ ids) p f k =
      let first : Found p x (search_root x p) =
        laws.finds x p f (k x (ground (arith, eq_refl x))) in
      let rest : Collected wanted ids first.after
          (members_with_root search_root wanted ids first.after) =
        members_with_root-collects wanted ids first.after first.refines.forest
          (λ m h. rw first.refines.same_keys (k m (ground arith))) in
      record {
        members = if wanted first.root then x ∷ rest.members else rest.members;
        after = rest.after;
        returns = rw first.returns (rw rest.returns refl);
        refines = Refines-trans first.refines rest.refines;
        from_ids =
            λ m h. kept_from_ids x m ids rest.members (wanted first.root) (rest.from_ids m) h;
        exact = λ m r h w. elim (text_cases x m) [
          | inl same ↦
              let root_x : first.root ≡ r =
                Root-unique first.way (subst (λ v. Root p v r) (sym same) w) in
              kept_self x m ids rest.members (wanted first.root) (rest.from_ids m) same
                (λ j. rest.exact m r j (first.refines.roots m r w) ∙ ap wanted (sym root_x))
              ∙ ap wanted root_x
          | inr other ↦
              let (j, same_answer) =
                kept_other x m ids rest.members (wanted first.root) (rest.from_ids m) other h in
              same_answer ∙ rest.exact m r j (first.refines.roots m r w)
        ];
      }

  -- `component_members(left, right)`: the ids of the one component and of the other.
  pub component_members-collects :
      (ids : List String) (left right a b : String) (p : Parent)
      → IsForest p
      → AllKeys ids p
      → Root p left a
      → Root p right b
      → Collected
          (λ root. root == a || root == b)
          ids
          p
          (component_members search_root ids left right p)
  unfolding component_members
  component_members-collects ids left right a b p f k wl wr =
      let l : Found p left (search_root left p) = laws.finds left p f (Root-IsKey wl) in
      let r : Found l.after right (search_root right l.after) =
        laws.finds right l.after l.refines.forest (rw l.refines.same_keys (Root-IsKey wr)) in
      let both : Refines p r.after = Refines-trans l.refines r.refines in
      let same_a : l.root ≡ a = Root-unique l.way wl in
      let same_b : r.root ≡ b = Root-unique r.way (l.refines.roots right b wr) in
      let rest : Collected (λ root. root == a || root == b) ids r.after
          (members_with_root search_root (λ root. root == a || root == b) ids r.after) =
        members_with_root-collects (λ root. root == a || root == b) ids r.after both.forest
          (λ m h. rw both.same_keys (k m h)) in
      record {
        members = rest.members;
        after = rest.after;
        returns = rw l.returns (rw r.returns (rw (same_a, same_b) rest.returns));
        refines = Refines-trans both rest.refines;
        from_ids = rest.from_ids;
        exact = λ m s h w. rest.exact m s h (both.roots m s w);
      }

  -- `members_of(node)`: the ids of the component of `node`.
  pub members_of-collects :
      (node a : String) (p : Parent)
      → IsForest p
      → Root p node a
      → Collected (λ root. root == a) (keys p) p (members_of search_root node p)
  unfolding members_of
  members_of-collects node a p f way =
      let l : Found p node (search_root node p) = laws.finds node p f (Root-IsKey way) in
      let same_a : l.root ≡ a = Root-unique l.way way in
      let rest : Collected (λ root. root == a) (keys p) l.after
          (members_with_root search_root (λ root. root == a) (keys p) l.after) =
        members_with_root-collects (λ root. root == a) (keys p) l.after l.refines.forest
          (λ m h. rw l.refines.same_keys h) in
      record {
        members = rest.members;
        after = rest.after;
        returns = rw l.returns (rw (l.refines.same_keys, same_a) rest.returns);
        refines = Refines-trans l.refines rest.refines;
        from_ids = rest.from_ids;
        exact = λ m s h w. rest.exact m s h (l.refines.roots m s w);
      }
