-- ===== src/UnionFind/Find.antt =====
-- The recursive `_UnionFind.find` returns the root of its id, within its fuel, and the paths that
-- it compresses keep their meaning.
use ai_data_quality_platform.Base.{
  ℕ, zero, suc, ◌<◌, String, some, ◌≡◌, refl, sym, ap, ◌∙◌, ◌≢◌, inl, inr, arith, length, text_eq,
  eq_iff, eq_false, text_cases, subst, Result, ok, ◌>>=◌,
}
use ai_data_quality_platform.Base.Assoc.{lookup, insert, keys}
use ai_data_quality_platform.UnionFind.{Parent, Fault, find_fuel, find}
use ai_data_quality_platform.UnionFind.Forest.{
  IsKey, lookup_of_key, rank, rank_lt, rank-lt-length, IsForest, Root, here, up, Root-end,
  Root-below, Root-unique, Refines, Refines-refl, Refines-trans, Refines-shortcut, Found, IsFinder,
}

not_root : (p : Parent) {x y r : String} → lookup x p ≡ some y → x ≢ y → lookup r p ≡ some r → x ≢ r
not_root p h ne end e = ne (cc)

-- The write after the search of the parent.
compressed :
    (x y : String) (p : Parent) (answer : Result Fault (String × Parent))
    → lookup x p ≡ some y
    → x ≢ y
    → IsForest p
    → Found p y answer
    → Found p x (answer >>= λ found. ok (found.0, insert x found.0 found.1))
compressed x y p answer h ne f above =
    let way : Root p x above.root = up y h ne above.way in
    record {
      root = above.root;
      after = insert x above.root above.after;
      returns = rw above.returns;
      way = way;
      refines = Refines-trans above.refines (
          Refines-shortcut above.refines.forest x above.root above.root
            (above.refines.roots x above.root way)
            (Root-below f way (not_root p h ne (Root-end way)))
            (here (Root-end (above.refines.roots x above.root way)) refl));
    }

find_fuel-root :
    (fuel : ℕ) (x y : String) (p : Parent)
    → lookup x p ≡ some y
    → y ≡ x
    → find_fuel (suc fuel) x p ≡ ok (x, p)
unfolding find_fuel
find_fuel-root fuel x y p h e = ground (arith, eq_iff y x)

find_fuel-up :
    (fuel : ℕ) (x y : String) (p : Parent)
    → lookup x p ≡ some y
    → y ≢ x
    → find_fuel (suc fuel) x p
      ≡ (find_fuel fuel y p >>= λ found. ok (found.0, insert x found.0 found.1))
unfolding find_fuel
find_fuel-up fuel x y p h ne = rw (h, find_fuel) (rw (eq_false y x ne))

find_fuel-finds :
    (fuel : ℕ) (x : String) (p : Parent)
    → IsForest p
    → IsKey x p
    → rank x (keys p) < fuel
    → Found p x (find_fuel fuel x p)
find_fuel-finds zero x p f k lt = elim lt [ ]
find_fuel-finds (suc fuel) x p f k lt =
    let (y, h) = lookup_of_key x p k in
    elim (text_cases x y) [
      | inl same ↦ record {
        root = x;
        after = p;
        returns = find_fuel-root fuel x y p h (sym same);
        way = here (h ∙ ap some (sym same)) refl;
        refines = Refines-refl f;
      }
      | inr other ↦ rw (find_fuel-up fuel x y p h (λ e. other (sym e))) (
          compressed x y p (find_fuel fuel y p) h other f (
            find_fuel-finds fuel y p f (f.closed x y h)
              (omega (arith, rank_lt x y (keys p) (f.ordered x y h other) (f.closed x y h)))))
    ]

-- With one more unit of fuel than there are ids the search returns.
pub find-IsFinder : IsFinder find
unfolding find
find-IsFinder = record {
  finds = λ x p f k.
      find_fuel-finds (suc (length (keys p))) x p f k (omega (arith, rank-lt-length x (keys p) k));
}

-- Every stored id has a root.
pub Root-exists : {p : Parent} (x : String) → IsForest p → IsKey x p → (r : String) × Root p x r
Root-exists {p} x f k =
    let found : Found p x (find x p) = find-IsFinder.finds x p f k in (found.root, found.way)

-- A root after searches was the root before them.
pub Root-back :
    {p q : Parent} {x r : String} → IsForest p → Refines p q → IsKey x p → Root q x r → Root p x r
Root-back {p} {q} {x} {r} f same k way =
    let (s, old) = Root-exists x f k in
    subst (λ w. Root p x w) (Root-unique (same.roots x s old) way) old
