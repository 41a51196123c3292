-- ===== src/UnionFind/Halving.antt =====
-- The search loop that halves its path returns the root of its id too, within its fuel, and keeps
-- what the dictionary means.
use ai_data_quality_platform.Base.{
  ℕ, zero, suc, ◌<◌, String, true, some, ◌≡◌, refl, sym, ap, ◌∙◌, ◌≢◌, inl, inr, arith, text_lt,
  length, text_eq, eq_iff, eq_false, text_cases, subst, Result, ok,
}
use ai_data_quality_platform.Base.Assoc.{lookup, insert, keys}
use ai_data_quality_platform.UnionFind.{Parent, Fault, find, halve_fuel, find_halving}
use ai_data_quality_platform.UnionFind.Find.{find-IsFinder}
use ai_data_quality_platform.UnionFind.Forest.{
  IsKey, lookup_of_key, rank, rank_lt, rank-lt-length, IsForest, Root, here, Refines, Refines-refl,
  Refines-trans, Refines-shortcut, Found, IsFinder, Root-IsKey, Root-unique, Root-parent,
  grand_below,
}

halve_fuel-root :
    (fuel : ℕ) (x y g : String) (p : Parent)
    → lookup x p ≡ some y
    → lookup y p ≡ some g
    → y ≡ x
    → halve_fuel (suc fuel) x p ≡ ok (x, p)
unfolding halve_fuel
halve_fuel-root fuel x y g p h k e = rw (h, halve_fuel) (rw (k, (eq_iff y x).1 e))

halve_fuel-up :
    (fuel : ℕ) (x y g : String) (p : Parent)
    → lookup x p ≡ some y
    → lookup y p ≡ some g
    → y ≢ x
    → halve_fuel (suc fuel) x p ≡ halve_fuel fuel g (insert x g p)
unfolding halve_fuel
halve_fuel-up fuel x y g p h k ne = rw (h, halve_fuel) (rw (k, eq_false y x ne))

-- Where the rest of the loop ends, from the grandparent on, this round ends.
halved :
    (x g : String) (p : Parent) (answer : Result Fault (String × Parent)) {r : String}
    → Root p x r
    → Root p g r
    → Refines p (insert x g p)
    → Found (insert x g p) g answer
    → Found p x answer
halved x g p answer {r} way way_g shorter rest =
    let same : r ≡ rest.root = Root-unique (shorter.roots g r way_g) rest.way in
    record {
      root = rest.root;
      after = rest.after;
      returns = rest.returns;
      way = subst (λ w. Root p x w) same way;
      refines = Refines-trans shorter rest.refines;
    }

halve_fuel-finds :
    (fuel : ℕ) (x : String) (p : Parent)
    → IsForest p
    → IsKey x p
    → rank x (keys p) < fuel
    → Found p x (halve_fuel fuel x p)
halve_fuel-finds zero x p f k lt = elim lt [ ]
halve_fuel-finds (suc fuel) x p f k lt =
    let (y, h) = lookup_of_key x p k in
    let (g, j) = lookup_of_key y p (f.closed x y h) in
    let known : Found p x (find x p) = find-IsFinder.finds x p f k in
    elim (text_cases x y) [
      | inl same ↦ record {
        root = x;
        after = p;
        returns = halve_fuel-root fuel x y g p h j (sym same);
        way = here (h ∙ ap some (sym same)) refl;
        refines = Refines-refl f;
      }
      | inr other ↦
          let below : text_lt g x ≡ true = grand_below x y g f h other j in
          let way_g : Root p g known.root = Root-parent g j (Root-parent y h known.way) in
          let shorter : Refines p (insert x g p) =
            Refines-shortcut f x g known.root known.way below way_g in
          rw (halve_fuel-up fuel x y g p h j (λ e. other (sym e))) (
            halved x g p (halve_fuel fuel g (insert x g p)) known.way way_g shorter (
              halve_fuel-finds fuel g (insert x g p) shorter.forest
                (rw shorter.same_keys (Root-IsKey way_g))
                (rw shorter.same_keys
                  (omega (arith, rank_lt x g (keys p) below (Root-IsKey way_g))))))
    ]

-- With one more unit of fuel than there are ids the loop ends.
pub find_halving-IsFinder : IsFinder find_halving
unfolding find_halving
find_halving-IsFinder = record {
  finds = λ x p f k.
      halve_fuel-finds (suc (length (keys p))) x p f k (omega (arith, rank-lt-length x (keys p) k));
}
