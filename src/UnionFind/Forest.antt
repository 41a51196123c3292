-- ===== src/UnionFind/Forest.antt =====
-- What the `parent` dictionary of UnionFind means: every id leads to one root, the smallest id of
-- its component. Searching may rewrite the dictionary, and never what it means.
use ai_data_quality_platform.Base.{
  Result, ok, ℕ, ◌+◌, ◌≤◌, ◌<◌, String, true, some, List, [], ◌∷◌, ◌==◌, ◌≡◌, refl, sym, ◌∙◌, ◌≢◌,
  inl, inr, arith, text_lt, if◌then◌else◌, length, contains, text_eq, eq_iff, text_lt_irrefl,
  text_lt_trans, Bool-cases, text_cases, subst,
}
use ai_data_quality_platform.Base.Assoc.{
  lookup, insert, keys, lookup-insert_cases, lookup-insert_self, lookup-insert_ne, keys-insert,
}
use ai_data_quality_platform.UnionFind.{Parent, Fault, Finder}

abbrev pub IsKey : String → Parent → Type 0
IsKey x p = contains x (keys p) ≡ true

pub lookup_of_key : (x : String) (p : Parent) → IsKey x p → (y : String) × (lookup x p ≡ some y)
unfolding lookup keys
lookup_of_key x [] h = cc
lookup_of_key x ((j, v) ∷ p) h = elim (Bool-cases (j == x)) [
  | inl e ↦ (v, rw e)
  | inr ne ↦ rw ne (lookup_of_key x p (rw ne at h))
]

pub IsKey-of_lookup : (x y : String) (p : Parent) → lookup x p ≡ some y → IsKey x p
unfolding lookup keys
IsKey-of_lookup x y [] h = cc
IsKey-of_lookup x y ((j, v) ∷ p) h = ground (arith, IsKey-of_lookup x y p)

-- How many of the ids come before `x`.
abbrev pub rank : String → List String → ℕ
rank x [] = 0
rank x (k ∷ ks) = (if text_lt k x then 1 else 0) + rank x ks

pub rank_mono : (x y : String) (ks : List String) → text_lt y x ≡ true → rank y ks ≤ rank x ks
rank_mono x y [] h = omega arith
rank_mono x y (k ∷ ks) h = ground (arith, rank_mono x y ks h, text_lt_trans k y x)

-- An id that is stored has a smaller rank than any id after it.
pub rank_lt :
    (x y : String) (ks : List String)
    → text_lt y x ≡ true
    → contains y ks ≡ true
    → rank y ks < rank x ks
rank_lt x y [] h m = cc
rank_lt x y (k ∷ ks) h m =
    ground (
      arith,
      rank_mono x y ks h,
      rank_lt x y ks h,
      text_lt_trans k y x,
      text_lt_irrefl y,
      eq_iff k y,
    )

pub rank-le-length : (x : String) (ks : List String) → rank x ks ≤ length ks
rank-le-length x [] = omega arith
rank-le-length x (k ∷ ks) = ground (arith, rank-le-length x ks)

pub rank-lt-length : (x : String) (ks : List String) → contains x ks ≡ true → rank x ks < length ks
rank-lt-length x [] m = cc
rank-lt-length x (k ∷ ks) m =
    ground (arith, rank-le-length x ks, rank-lt-length x ks, text_lt_irrefl x, eq_iff k x)

-- Every parent is a stored id, and is the id itself or one that comes before it.
pub record IsForest (p : Parent) : Type 0 where
  pub ordered : (x y : String) → lookup x p ≡ some y → x ≢ y → text_lt y x ≡ true
  pub closed : (x y : String) → lookup x p ≡ some y → IsKey y p

-- `Root p x r`: following the parents from `x` ends at `r`.
pub data Root (p : Parent) : String → String → Type 0 where
  here : {x r : String} → lookup x p ≡ some x → x ≡ r → Root p x r
  up : {x r : String} (y : String) → lookup x p ≡ some y → x ≢ y → Root p y r → Root p x r

pub Root-unique : {p : Parent} {x r s : String} → Root p x r → Root p x s → r ≡ s
Root-unique (here h e) (here k d) = cc
Root-unique (here h e) (up y k ne q) = absurd (ne (cc))
Root-unique (up y h ne q) (here k d) = absurd (ne (cc))
Root-unique {p = p} {s = s} (up y h ne q) (up z k me t) =
    let same : z ≡ y = cc in Root-unique q (subst (λ w. Root p w s) same t)

-- The end of the way is a root.
pub Root-end : {p : Parent} {x r : String} → Root p x r → lookup r p ≡ some r
Root-end (here h e) = cc
Root-end (up y h ne q) = Root-end q

-- It comes before the start, unless it is the start.
pub Root-below : {p : Parent} {x r : String} → IsForest p → Root p x r → x ≢ r → text_lt r x ≡ true
Root-below f (here h e) ne = absurd (ne e)
Root-below {x = x} {r = r} f (up y h me q) ne = elim (Bool-cases (y == r)) [
  | inl same ↦ rw (← (eq_iff y r).0 same) (f.ordered x y h me)
  | inr other ↦
      text_lt_trans r y x (Root-below f q (λ e. cc (other, (eq_iff y r).1 e))) (f.ordered x y h me)
]

pub Root-IsKey : {p : Parent} {x r : String} → Root p x r → IsKey x p
Root-IsKey {p} {x} (here h e) = IsKey-of_lookup x x p h
Root-IsKey {p} {x} (up y h ne q) = IsKey-of_lookup x y p h

-- `q` is `p` after searches: the same ids, each with the root that it had.
pub record Refines (p q : Parent) : Type 0 where
  pub forest : IsForest q
  pub same_keys : keys q ≡ keys p
  pub roots : (x r : String) → Root p x r → Root q x r

pub Refines-refl : {p : Parent} → IsForest p → Refines p p
Refines-refl f = record { forest = f; same_keys = refl; roots = λ x r h. h }

pub Refines-trans : {p q s : Parent} → Refines p q → Refines q s → Refines p s
Refines-trans f g = record {
  forest = g.forest;
  same_keys = g.same_keys ∙ f.same_keys;
  roots = λ x r h. g.roots x r (f.roots x r h);
}

pub ne_of_text_lt : (y x : String) → text_lt y x ≡ true → x ≢ y
ne_of_text_lt y x h e = cc (text_lt_irrefl y, subst (λ w. text_lt y w ≡ true) e h)

-- A write that keeps an id below itself keeps a forest.
pub insert-IsForest :
    (x v y : String) (p : Parent)
    → IsForest p
    → lookup x p ≡ some y
    → IsKey v p
    → (x ≢ v → text_lt v x ≡ true)
    → IsForest (insert x v p)
insert-IsForest x v y p f h kv below = record {
  ordered = λ a b e ne. elim (lookup-insert_cases x a v b p e) [
    | inl (xa, vb) ↦ ground (arith, below (λ xv. ne (cc)))
    | inr (xa, old) ↦ f.ordered a b old ne
  ];
  closed = λ a b e. rw (keys-insert x v y p h) (elim (lookup-insert_cases x a v b p e) [
    | inl (xa, vb) ↦ subst (λ w. IsKey w p) vb kv
    | inr (xa, old) ↦ f.closed a b old
  ]);
}

-- A way that starts below `x` does not pass through `x`.
avoid :
    {p : Parent} {z s : String} (x v : String)
    → IsForest p
    → text_lt z x ≡ true
    → Root p z s
    → Root (insert x v p) z s
avoid {p} {z} x v f lt (here h e) = here (lookup-insert_ne x z v p (ne_of_text_lt z x lt) ∙ h) e
avoid {p} {z} x v f lt (up y h me q) =
    up y (lookup-insert_ne x z v p (ne_of_text_lt z x lt) ∙ h) me
      (avoid x v f (text_lt_trans y z x (f.ordered z y h me) lt) q)

module _ {p : Parent} (f : IsForest p) (x v r : String) (way : Root p x r) where
  -- After `parent[x] = v`, for a `v` before `x` in the same component, every id has the root
  -- that it had.
  shortcut_at :
      {s : String} → text_lt v x ≡ true → Root p v r → Root p x s → Root (insert x v p) x s
  shortcut_at lt way_v q =
      subst (λ w. Root (insert x v p) x w) (Root-unique way q)
        (up v (lookup-insert_self x v p) (ne_of_text_lt v x lt) (avoid x v f lt way_v))

  shortcut-roots :
      {z s : String} → text_lt v x ≡ true → Root p v r → Root p z s → Root (insert x v p) z s
  shortcut-roots {z} {s} lt way_v (here h e) = elim (text_cases x z) [
    | inl same ↦
        subst (λ w. Root (insert x v p) w s) same
          (shortcut_at lt way_v (subst (λ w. Root p w s) (sym same) (here h e)))
    | inr other ↦ here (lookup-insert_ne x z v p other ∙ h) e
  ]
  shortcut-roots {z} {s} lt way_v (up y h me q) =
      let rest : Root (insert x v p) y s = shortcut-roots lt way_v q in
      elim (text_cases x z) [
        | inl same ↦
            subst (λ w. Root (insert x v p) w s) same
              (shortcut_at lt way_v (subst (λ w. Root p w s) (sym same) (up y h me q)))
        | inr other ↦ up y (lookup-insert_ne x z v p other ∙ h) me rest
      ]

  pub Refines-shortcut : text_lt v x ≡ true → Root p v r → Refines p (insert x v p)
  Refines-shortcut lt way_v =
      let (y, h) = lookup_of_key x p (Root-IsKey way) in
      record {
        forest = insert-IsForest x v y p f h (Root-IsKey way_v) (λ _. lt);
        same_keys = keys-insert x v y p h;
        roots = λ z s. shortcut-roots lt way_v;
      }

-- What a search must answer: the root of its id, and a dictionary that means the same.
pub record Found (p : Parent) (x : String) (answer : Result Fault (String × Parent)) : Type 0 where
  pub root : String
  pub after : Parent
  pub returns : answer ≡ ok (root, after)
  pub way : Root p x root
  pub refines : Refines p after

pub record IsFinder (search_root : Finder) : Type 0 where
  pub finds : (x : String) (p : Parent) → IsForest p → IsKey x p → Found p x (search_root x p)

-- One step up the way leaves its end.
pub Root-parent :
    {p : Parent} {x r : String} (y : String) → lookup x p ≡ some y → Root p x r → Root p y r
Root-parent {p} {x} {r} y k (here h e) =
    let same : x ≡ y = cc in subst (λ w. Root p w r) same (here h e)
Root-parent {p} {x} {r} y k (up z h ne q) = let same : z ≡ y = cc in subst (λ w. Root p w r) same q

pub grand_below :
    {p : Parent} (x y g : String)
    → IsForest p
    → lookup x p ≡ some y
    → x ≢ y
    → lookup y p ≡ some g
    → text_lt g x ≡ true
grand_below x y g f h ne k = elim (text_cases y g) [
  | inl same ↦ subst (λ w. text_lt w x ≡ true) same (f.ordered x y h ne)
  | inr other ↦ text_lt_trans g y x (f.ordered y g k other) (f.ordered x y h ne)
]
