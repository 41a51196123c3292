-- ===== src/UnionFind/Partition.antt =====
-- The abstract view of the dictionary is a partition of the ids into components. `union` joins two
-- of them and no others, and a new dictionary has every id in a component of its own.
use ai_data_quality_platform.Base.{
  String, Bool, true, false, not, some, List, [], ◌∷◌, ◌==◌, ◌≡◌, refl, sym, ap, ◌∙◌, ◌↔◌, ◌⊎◌, inl,
  inr, arith, contains, text_eq, eq_iff, text_cases, subst, ok, contains_cons, contains_self,
}
use ai_data_quality_platform.Base.Assoc.{
  lookup, insert, keys, lookup-insert_cases, lookup-insert_self,
}
use ai_data_quality_platform.UnionFind.{Parent, Finder, union, add_singletons, singletons}
use ai_data_quality_platform.UnionFind.Union.{merged, United, Joined, union-United}
use ai_data_quality_platform.UnionFind.Find.{Root-exists}
use ai_data_quality_platform.UnionFind.Forest.{
  IsKey, lookup_of_key, IsForest, Root, here, Root-unique, IsFinder, IsKey-of_lookup,
}

-- Two ids are in one component.
abbrev pub SameTree : Parent → String → String → Type 0
SameTree p z w = (r : String) × Root p z r × Root p w r

abbrev pub Touches : Parent → String → String → String → Type 0
Touches p left right z = SameTree p z left ⊎ SameTree p z right

-- `q` is `p` with the components of `left` and `right` made one.
pub record JoinsExactly (p q : Parent) (left right : String) : Type 0 where
  pub forest : IsForest q
  pub same_keys : keys q ≡ keys p
  pub components :
      (z w : String)
      → IsKey z p
      → IsKey w p
      → SameTree q z w ↔ (SameTree p z w ⊎ (Touches p left right z × Touches p left right w))

module _ (a b s t : String) where
  merged_inj : merged a b s ≡ merged a b t → (s ≡ t) ⊎ (((s ≡ a) ⊎ (s ≡ b)) × ((t ≡ a) ⊎ (t ≡ b)))
  merged_inj h = ground (arith, eq_iff s a, eq_iff s b, eq_iff t a, eq_iff t b)

  merged_join : (s ≡ a) ⊎ (s ≡ b) → (t ≡ a) ⊎ (t ≡ b) → merged a b s ≡ merged a b t
  merged_join h k = ground (arith, eq_iff s a, eq_iff s b, eq_iff t a, eq_iff t b)

module _ {p q : Parent} {left right a b : String} (wl : Root p left a) (wr : Root p right b)
    (j : Joined p q a b) where
  touched : {z s : String} → Root p z s → (s ≡ a) ⊎ (s ≡ b) → Touches p left right z
  touched {z} {s} way (inl e) = inl (a, subst (λ v. Root p z v) e way, wl)
  touched {z} {s} way (inr e) = inr (b, subst (λ v. Root p z v) e way, wr)

  touching : {z s : String} → Root p z s → Touches p left right z → (s ≡ a) ⊎ (s ≡ b)
  touching way (inl (r, wz, w)) = inl (Root-unique way wz ∙ Root-unique w wl)
  touching way (inr (r, wz, w)) = inr (Root-unique way wz ∙ Root-unique w wr)

  apart_or_joined :
      {z w s t : String}
      → Root p z s
      → Root p w t
      → (s ≡ t) ⊎ (((s ≡ a) ⊎ (s ≡ b)) × ((t ≡ a) ⊎ (t ≡ b)))
      → SameTree p z w ⊎ (Touches p left right z × Touches p left right w)
  apart_or_joined {z} {w} {s} {t} wz ww (inl e) = inl (t, subst (λ v. Root p z v) e wz, ww)
  apart_or_joined wz ww (inr (h, k)) = inr (touched wz h, touched ww k)

  joined_back :
      {z w s t : String}
      → Root p z s
      → Root p w t
      → SameTree p z w ⊎ (Touches p left right z × Touches p left right w)
      → merged a b s ≡ merged a b t
  joined_back wz ww (inl (r, h, k)) = ap (merged a b) (Root-unique wz h ∙ Root-unique k ww)
  joined_back {z} {w} {s} {t} wz ww (inr (h, k)) =
      merged_join a b s t (touching wz h) (touching ww k)

  joined-components :
      (z w s t : String)
      → Root p z s
      → Root p w t
      → SameTree q z w ↔ (SameTree p z w ⊎ (Touches p left right z × Touches p left right w))
  joined-components z w s t wz ww = (
    λ h.
        apart_or_joined wz ww (
          merged_inj a b s t (Root-unique (j.roots z s wz) h.1 ∙ Root-unique h.2 (j.roots w t ww))),
    λ h. (
      merged a b t,
      subst (λ v. Root q z v) (joined_back wz ww h) (j.roots z s wz),
      j.roots w t ww,
    ),
  )

-- On a forest and two stored ids `union` returns, answers whether the two were apart, and joins
-- their two components and no others.
pub union-JoinsExactly :
    (search_root : Finder) (left right : String) (p : Parent)
    → IsFinder search_root
    → IsForest p
    → IsKey left p
    → IsKey right p
    → (answer : Bool) × (q : Parent) × (union search_root left right p ≡ ok (answer, q))
      × ((answer ≡ false) ↔ SameTree p left right)
      × JoinsExactly p q left right
union-JoinsExactly search_root left right p laws f kl kr =
    let u : United p left right (union search_root left right p) =
      union-United search_root left right p laws f kl kr in
    (
      not (u.root_left == u.root_right),
      u.after,
      u.returns,
      (
        λ h. (
          u.root_right,
          subst (λ v. Root p left v) ((eq_iff u.root_left u.root_right).0 (ground arith))
              u.way_left,
          u.way_right,
        ),
        λ h. ap not (
            (eq_iff u.root_left u.root_right).1
              (Root-unique u.way_left h.1 ∙ Root-unique h.2 u.way_right)),
      ),
      record {
        forest = u.joined.forest;
        same_keys = u.joined.same_keys;
        components = λ z w kz kw.
            let (s, wz) = Root-exists z f kz in
            let (t, ww) = Root-exists w f kw in
            joined-components u.way_left u.way_right u.joined z w s t wz ww;
      },
    )

abbrev AreSingletons : Parent → Type 0
AreSingletons p = (x y : String) → lookup x p ≡ some y → x ≡ y

add_singletons-AreSingletons :
    (p : Parent) (ids : List String) → AreSingletons p → AreSingletons (add_singletons p ids)
unfolding add_singletons
add_singletons-AreSingletons p [] h = h
add_singletons-AreSingletons p (m ∷ ids) h =
    add_singletons-AreSingletons (insert m m p) ids λ x y e.
      elim (lookup-insert_cases m x m y p e) [ inl (mx, my) ↦ cc | inr (mx, old) ↦ h x y old ]

IsKey-insert : (x m v : String) (p : Parent) → IsKey x p → IsKey x (insert m v p)
unfolding insert keys
IsKey-insert x m v [] h = cc
IsKey-insert x m v ((k, w) ∷ p) h = ground (arith, IsKey-insert x m v p)

add_singletons-keeps :
    (x : String) (p : Parent) (ids : List String) → IsKey x p → IsKey x (add_singletons p ids)
unfolding add_singletons
add_singletons-keeps x p [] h = h
add_singletons-keeps x p (m ∷ ids) h =
    add_singletons-keeps x (insert m m p) ids (IsKey-insert x m m p h)

add_singletons-IsKey :
    (x : String) (p : Parent) (ids : List String)
    → contains x ids ≡ true
    → IsKey x (add_singletons p ids)
unfolding add_singletons
add_singletons-IsKey x p [] h = cc
add_singletons-IsKey x p (m ∷ ids) h = elim (text_cases m x) [
  | inl same ↦ add_singletons-keeps x (insert m m p) ids (
      subst (λ v. IsKey v (insert m m p)) same
        (IsKey-of_lookup m m (insert m m p) (lookup-insert_self m m p)))
  | inr other ↦ add_singletons-IsKey x (insert m m p) ids (ground (arith, eq_iff m x))
]

pub singletons-lookup :
    (ids : List String) (x y : String) → lookup x (singletons ids) ≡ some y → x ≡ y
unfolding singletons lookup
singletons-lookup ids = add_singletons-AreSingletons [] ids (λ x y e. cc)

add_singletons-listed :
    (x : String) (p : Parent) (ids : List String)
    → IsKey x (add_singletons p ids)
    → (contains x ids ≡ true) ⊎ IsKey x p
unfolding add_singletons
add_singletons-listed x p [] k = inr k
add_singletons-listed x p (m ∷ ids) k = elim (add_singletons-listed x (insert m m p) ids k) [
  | inl there ↦ inl (contains_cons x m ids there)
  | inr stored ↦
      let (y, e) = lookup_of_key x (insert m m p) stored in
      elim (lookup-insert_cases m x m y p e) [
        | inl (mx, my) ↦ inl (subst (λ w. contains w (m ∷ ids) ≡ true) mx (contains_self m ids))
        | inr (mx, old) ↦ inr (IsKey-of_lookup x y p old)
      ]
]

pub IsKey-singletons :
    (x : String) (ids : List String) → IsKey x (singletons ids) → contains x ids ≡ true
unfolding singletons keys
IsKey-singletons x ids k = elim (add_singletons-listed x [] ids k) [
  | inl there ↦ there
  | inr stored ↦ cc
]

pub singletons-IsForest : (ids : List String) → IsForest (singletons ids)
singletons-IsForest ids = record {
  ordered = λ x y h ne. absurd (ne (singletons-lookup ids x y h));
  closed = λ x y h.
      subst (λ v. IsKey v (singletons ids)) (singletons-lookup ids x y h)
        (IsKey-of_lookup x y (singletons ids) h);
}

pub singletons-IsKey :
    (x : String) (ids : List String) → contains x ids ≡ true → IsKey x (singletons ids)
unfolding singletons
singletons-IsKey x ids h = add_singletons-IsKey x [] ids h

-- In a new dictionary each id is its own root.
pub singletons-Root :
    (x : String) (ids : List String) → contains x ids ≡ true → Root (singletons ids) x x
singletons-Root x ids h =
    let (y, e) = lookup_of_key x (singletons ids) (singletons-IsKey x ids h) in
    here (e ∙ ap some (sym (singletons-lookup ids x y e))) refl
