-- ===== src/HumanReview/Linked.antt =====
-- What the human decisions say without union-find: two records are linked when a chain of accepted
-- pairs leads from one to the other. The loops that accept pairs keep the components of the
-- dictionary equal to the linked records, and keep NO_MATCH pairs apart.
use ai_data_quality_platform.Base.{
  String, true, List, [], ◌∷◌, ◌≡◌, refl, sym, ◌∙◌, ◌≢◌, inl, inr, contains, text_eq, subst,
  contains-cons_cases, contains_cons, contains_self,
}
use ai_data_quality_platform.UnionFind.{Parent, singletons}
use ai_data_quality_platform.UnionFind.Forest.{
  IsKey, IsForest, Root, here, up, Root-IsKey, Root-unique, Refines,
}
use ai_data_quality_platform.UnionFind.Find.{Root-exists, Root-back}
use ai_data_quality_platform.UnionFind.Partition.{
  SameTree, Touches, JoinsExactly, singletons-lookup, singletons-IsForest,
}
use ai_data_quality_platform.EntityResolution.Models.{RecordPair, pair_eq}

pub data Linked (edges : List RecordPair) : String → String → Type 0 where
  same : {x y : String} → x ≡ y → Linked edges x y
  forth :
      {x y : String} (e : RecordPair)
      → contains e edges ≡ true
      → x ≡ e.record_a_id
      → Linked edges e.record_b_id y
      → Linked edges x y
  back :
      {x y : String} (e : RecordPair)
      → contains e edges ≡ true
      → x ≡ e.record_b_id
      → Linked edges e.record_a_id y
      → Linked edges x y

pub Linked-trans :
    {edges : List RecordPair} {x y z : String}
    → Linked edges x y
    → Linked edges y z
    → Linked edges x z
Linked-trans {edges} {x} {y} {z} (same e) k = subst (λ w. Linked edges w z) (sym e) k
Linked-trans (forth e m s h) k = forth e m s (Linked-trans h k)
Linked-trans (back e m s h) k = back e m s (Linked-trans h k)

pub Linked-sym : {edges : List RecordPair} {x y : String} → Linked edges x y → Linked edges y x
Linked-sym (same e) = same (sym e)
Linked-sym (forth e m s h) = Linked-trans (Linked-sym h) (back e m refl (same (sym s)))
Linked-sym (back e m s h) = Linked-trans (Linked-sym h) (forth e m refl (same (sym s)))

pub Linked-more :
    {edges more : List RecordPair} {x y : String}
    → ((e : RecordPair) → contains e edges ≡ true → contains e more ≡ true)
    → Linked edges x y
    → Linked more x y
Linked-more sub (same e) = same e
Linked-more sub (forth e m s h) = forth e (sub e m) s (Linked-more sub h)
Linked-more sub (back e m s h) = back e (sub e m) s (Linked-more sub h)

-- Components of the dictionary are the linked records.
pub record Spans (edges : List RecordPair) (p : Parent) : Type 0 where
  pub forest : IsForest p
  pub joins : (e : RecordPair) → contains e edges ≡ true → SameTree p e.record_a_id e.record_b_id
  pub only : (x y : String) → IsKey x p → IsKey y p → SameTree p x y → Linked edges x y

SameTree-trans : {p : Parent} {x y z : String} → SameTree p x y → SameTree p y z → SameTree p x z
SameTree-trans {p} {x} {y} {z} (r, a, b) (s, c, d) =
    (s, subst (λ w. Root p x w) (Root-unique b c) a, d)

SameTree-sym : {p : Parent} {x y : String} → SameTree p x y → SameTree p y x
SameTree-sym (r, a, b) = (r, b, a)

pub SameTree-self : {p : Parent} {x y : String} → IsForest p → IsKey x p → x ≡ y → SameTree p x y
SameTree-self {p} {x} {y} f k e =
    let (r, way) = Root-exists x f k in (r, way, subst (λ w. Root p w r) e way)

-- Linked records are in one component.
pub SameTree-of_Linked :
    {edges : List RecordPair} {p : Parent} {x y : String}
    → Spans edges p
    → IsKey x p
    → Linked edges x y
    → SameTree p x y
SameTree-of_Linked s k (same e) = SameTree-self s.forest k e
SameTree-of_Linked {p = p} {y = y} s k (forth e m d h) =
    let joined : SameTree p e.record_a_id e.record_b_id = s.joins e m in
    subst (λ w. SameTree p w y) (sym d)
      (SameTree-trans joined (SameTree-of_Linked s (Root-IsKey joined.2) h))
SameTree-of_Linked {p = p} {y = y} s k (back e m d h) =
    let joined : SameTree p e.record_a_id e.record_b_id = s.joins e m in
    subst (λ w. SameTree p w y) (sym d)
      (SameTree-trans (SameTree-sym joined) (SameTree-of_Linked s (Root-IsKey joined.1) h))

-- Searches change no component.
pub SameTree-Refines : {p q : Parent} {x y : String} → Refines p q → SameTree p x y → SameTree q x y
SameTree-Refines {x = x} {y = y} f (r, a, b) = (r, f.roots x r a, f.roots y r b)

pub SameTree-back :
    {p q : Parent} {x y : String}
    → IsForest p
    → Refines p q
    → IsKey x p
    → IsKey y p
    → SameTree q x y
    → SameTree p x y
SameTree-back f g kx ky (r, a, b) = (r, Root-back f g kx a, Root-back f g ky b)

pub Spans-Refines :
    {edges : List RecordPair} {p q : Parent} → Spans edges p → Refines p q → Spans edges q
Spans-Refines {p = p} s f = record {
  forest = f.forest;
  joins = λ e m. SameTree-Refines f (s.joins e m);
  only = λ x y kx ky h.
      let kx' : IsKey x p = subst (λ ks. contains x ks ≡ true) f.same_keys kx in
      let ky' : IsKey y p = subst (λ ks. contains y ks ≡ true) f.same_keys ky in
      s.only x y kx' ky' (SameTree-back s.forest f kx' ky' h);
}

module _ {edges : List RecordPair} {p : Parent} (e : RecordPair) (s : Spans edges p)
    (ka : IsKey e.record_a_id p) (kb : IsKey e.record_b_id p) where
  -- What touches the new edge is linked to its first end.
  touching-Linked :
      (x : String)
      → IsKey x p
      → Touches p e.record_a_id e.record_b_id x
      → Linked (e ∷ edges) x e.record_a_id
  touching-Linked x kx (inl h) =
      Linked-more (λ d. contains_cons d e edges) (s.only x e.record_a_id kx ka h)
  touching-Linked x kx (inr h) =
      Linked-trans (Linked-more (λ d. contains_cons d e edges) (s.only x e.record_b_id kx kb h))
        (back e (contains_self e edges) refl (same refl))

  pub touching_both-Linked :
      (x y : String)
      → IsKey x p
      → IsKey y p
      → Touches p e.record_a_id e.record_b_id x
      → Touches p e.record_a_id e.record_b_id y
      → Linked (e ∷ edges) x y
  touching_both-Linked x y kx ky tx ty =
      Linked-trans (touching-Linked x kx tx) (Linked-sym (touching-Linked y ky ty))

module _ {edges : List RecordPair} {p q : Parent} (e : RecordPair) (s : Spans edges p)
    (ka : IsKey e.record_a_id p) (kb : IsKey e.record_b_id p)
    (j : JoinsExactly p q e.record_a_id e.record_b_id) where
  SameTree-join : {x y : String} → IsKey x p → IsKey y p → SameTree p x y → SameTree q x y
  SameTree-join {x} {y} kx ky h = (j.components x y kx ky).1 (inl h)

  joined_joins :
      (d : RecordPair) → contains d (e ∷ edges) ≡ true → SameTree q d.record_a_id d.record_b_id
  joined_joins d m = elim (contains-cons_cases d e edges m) [
    | inl this ↦
        subst (λ w. SameTree q w.record_a_id w.record_b_id) this
          ((j.components e.record_a_id e.record_b_id ka kb).1
            (inr (inl (SameTree-self s.forest ka refl), inr (SameTree-self s.forest kb refl))))
    | inr there ↦
        let old : SameTree p d.record_a_id d.record_b_id = s.joins d there in
        SameTree-join (Root-IsKey old.1) (Root-IsKey old.2) old
  ]

  joined_only : (x y : String) → IsKey x p → IsKey y p → SameTree q x y → Linked (e ∷ edges) x y
  joined_only x y kx ky h = elim ((j.components x y kx ky).0 h) [
    | inl old ↦ Linked-more (λ d. contains_cons d e edges) (s.only x y kx ky old)
    | inr (tx, ty) ↦ touching_both-Linked e s ka kb x y kx ky tx ty
  ]

  -- One more accepted pair.
  pub Spans-join : Spans (e ∷ edges) q
  Spans-join = record {
    forest = j.forest;
    joins = joined_joins;
    only = λ x y kx ky.
        joined_only x y (subst (λ ks. contains x ks ≡ true) j.same_keys kx)
          (subst (λ ks. contains y ks ≡ true) j.same_keys ky);
  }

-- A record that is linked to another one is stored.
pub Linked-IsKey :
    {edges : List RecordPair} {p : Parent} {x y : String}
    → Spans edges p
    → Linked edges x y
    → x ≢ y
    → IsKey x p
Linked-IsKey s (same e) ne = absurd (ne e)
Linked-IsKey {p = p} s (forth e m d h) ne =
    subst (λ w. IsKey w p) (sym d) (Root-IsKey (s.joins e m).1)
Linked-IsKey {p = p} s (back e m d h) ne =
    subst (λ w. IsKey w p) (sym d) (Root-IsKey (s.joins e m).2)

-- A dictionary of singletons links nothing.
singletons-SameTree : (ids : List String) {x r : String} → Root (singletons ids) x r → x ≡ r
singletons-SameTree ids (here h e) = e
singletons-SameTree ids (up y h ne way) = absurd (ne (singletons-lookup ids _ y h))

pub SameTree-singletons : (ids : List String) (x y : String) → SameTree (singletons ids) x y → x ≡ y
SameTree-singletons ids x y (r, a, b) = singletons-SameTree ids a ∙ sym (singletons-SameTree ids b)

pub Spans-singletons : (ids : List String) → Spans [] (singletons ids)
Spans-singletons ids = record {
  forest = singletons-IsForest ids;
  joins = λ e m. cc;
  only = λ x y kx ky h. same (SameTree-singletons ids x y h);
}
