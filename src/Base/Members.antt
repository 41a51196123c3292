-- ===== src/Base/Members.antt =====
-- Membership after each way to build a set or a sorted list, and what `any` and `all` find.
use Prim.Native.String.{String}
use mathlib.Core.Path.{◌≡◌, refl, ap, sym, ◌∙◌}
use mathlib.Core.Logic.{◌⊎◌, inl, inr}
use mathlib.Core.Bool.{Bool, true, false, ◌&&◌, ◌||◌}
use mathlib.Core.List.{List, [], ◌∷◌, ◌++◌}
use native.Mathlib.Omega.{arith}
use ai_data_quality_platform.Base.Tests.{text_lt, Bool-cases}
use ai_data_quality_platform.Base.Sets.{
  Eq, text_eq, contains, add, union_all, set_of, insert_sorted, sorted, sorted_texts, filter, any,
}

module _ {ℓ} {A : Type ℓ} ⦃e : Eq A⦄ where
  pub contains-append :
      (a : A) (xs ys : List A) → contains a (xs ++ ys) ≡ (contains a xs || contains a ys)
  contains-append a [] ys = refl
  contains-append a (x ∷ xs) ys = ground (arith, contains-append a xs ys)

  pub contains_self : (a : A) (xs : List A) → contains a (a ∷ xs) ≡ true
  contains_self a xs = ground (arith, e.equal_iff a a)

  -- `a` is in `b ∷ xs` just where it is `b` or in `xs`.
  pub contains-cons_cases :
      (a b : A) (xs : List A) → contains a (b ∷ xs) ≡ true → (b ≡ a) ⊎ (contains a xs ≡ true)
  contains-cons_cases a b xs h = elim (Bool-cases (e.equal b a)) [
    | inl same ↦ inl ((e.equal_iff b a).0 same)
    | inr other ↦ inr (ground arith)
  ]

  pub contains_cons : (a b : A) (xs : List A) → contains a xs ≡ true → contains a (b ∷ xs) ≡ true
  contains_cons a b xs h = ground arith

  pub contains-add :
      (a b : A) (xs : List A) → contains a (add b xs) ≡ (contains a xs || e.equal b a)
  contains-add a b xs = elim (Bool-cases (contains b xs)) [
    | inl old ↦ elim (Bool-cases (e.equal b a)) [
      | inl same ↦
          let same_ab : b ≡ a = (e.equal_iff b a).0 same in
          let here : contains a xs ≡ true = ap (λ v. contains v xs) (sym same_ab) ∙ old in
          rw (old, here)
      | inr other ↦ rw (old, other) (ground arith)
    ]
    | inr new ↦ rw new (contains-append a xs (b ∷ []) ∙ ground arith)
  ]

  pub contains-union_all :
      (a : A) (xs ys : List A) → contains a (union_all xs ys) ≡ (contains a xs || contains a ys)
  contains-union_all a xs [] = ground arith
  contains-union_all a xs (y ∷ ys) =
      ground (arith, contains-union_all a (add y xs) ys, contains-add a y xs)

  pub contains-set_of : (a : A) (xs : List A) → contains a (set_of xs) ≡ contains a xs
  contains-set_of a xs = contains-union_all a [] xs

  pub contains-insert_sorted :
      (before : A → A → Bool) (a b : A) (xs : List A)
      → contains a (insert_sorted before b xs) ≡ contains a (b ∷ xs)
  contains-insert_sorted before a b [] = refl
  contains-insert_sorted before a b (x ∷ xs) = ground (arith, contains-insert_sorted before a b xs)

  pub contains-sorted :
      (before : A → A → Bool) (a : A) (xs : List A) → contains a (sorted before xs) ≡ contains a xs
  contains-sorted before a [] = refl
  contains-sorted before a (x ∷ xs) =
      contains-insert_sorted before a x (sorted before xs)
      ∙ ap (λ b. e.equal x a || b) (contains-sorted before a xs)

  pub contains-filter :
      (p : A → Bool) (a : A) (xs : List A) → contains a (filter p xs) ≡ (contains a xs && p a)
  contains-filter p a [] = refl
  contains-filter p a (x ∷ xs) = elim (Bool-cases (e.equal x a)) [
    | inl same ↦
        let at : p x ≡ p a = ap p ((e.equal_iff x a).0 same) in
        ground (arith, contains-filter p a xs)
    | inr other ↦ ground (arith, contains-filter p a xs)
  ]

  pub any_witness :
      (p : A → Bool) (xs : List A)
      → any p xs ≡ true
      → (a : A) × (contains a xs ≡ true) × (p a ≡ true)
  any_witness p [] h = cc
  any_witness p (x ∷ xs) h = elim (Bool-cases (p x)) [
    | inl found ↦ (x, contains_self x xs, found)
    | inr not_here ↦
        let (a, m, found) = any_witness p xs (rw not_here at h) in
        (a, contains_cons a x xs m, found)
  ]

  pub any_none :
      (p : A → Bool) (a : A) (xs : List A) → any p xs ≡ false → contains a xs ≡ true → p a ≡ false
  any_none p a [] h m = cc
  any_none p a (x ∷ xs) h m = elim (Bool-cases (e.equal x a)) [
    | inl same ↦ let at : p x ≡ p a = ap p ((e.equal_iff x a).0 same) in ground arith
    | inr other ↦ any_none p a xs (ground arith) (ground arith)
  ]

pub contains-sorted_texts :
    (a : String) (xs : List String) → contains a (sorted_texts xs) ≡ contains a xs
unfolding sorted_texts
contains-sorted_texts a xs = contains-sorted text_lt a xs
