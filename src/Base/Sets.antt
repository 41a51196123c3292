-- ===== src/Base/Sets.antt =====
-- Python's `tuple`, `list`, `set` and `frozenset` as lists: `in`, `all`, `any`, `len`, `sorted`
-- by an order, and a set built by adding one element after another.
use Prim.Native.Nat.{ℕ, suc, ◌+◌}
use Prim.Native.String.{String}
use mathlib.Core.Path.{◌≡◌}
use mathlib.Core.Logic.{◌↔◌}
use mathlib.Core.Bool.{Bool, true, false, ◌&&◌, ◌||◌}
use mathlib.Core.List.{List, [], ◌∷◌, ◌++◌}
use native.Mathlib.Omega.{arith}
use text.Mathlib.TextEquality.{eq_iff}
use ai_data_quality_platform.Base.Tests.{◌==◌, text_lt, if◌then◌else◌}

-- A type whose values Python compares by `==`.
pub record Eq {ℓ} (A : Type ℓ) : Type ℓ where
  pub equal : A → A → Bool
  pub equal_iff : (a b : A) → (equal a b ≡ true) ↔ (a ≡ b)

instance abbrev pub text_eq : Eq String
text_eq = record { equal = ◌==◌; equal_iff = eq_iff }

module _ {ℓ} {A : Type ℓ} where
  abbrev pub length : List A → ℕ
  length [] = 0
  length (x ∷ xs) = suc (length xs)

  pub length-append : (xs ys : List A) → length (xs ++ ys) ≡ length xs + length ys
  length-append [] ys = omega arith
  length-append (x ∷ xs) ys = omega (arith, length-append xs ys)

  -- `any(p(x) for x in xs)` and `all(p(x) for x in xs)`.
  abbrev pub any : (A → Bool) → List A → Bool
  any p [] = false
  any p (x ∷ xs) = p x || any p xs

  abbrev pub all : (A → Bool) → List A → Bool
  all p [] = true
  all p (x ∷ xs) = p x && all p xs

  -- `[x for x in xs if p(x)]`
  abbrev pub filter : (A → Bool) → List A → List A
  filter p [] = []
  filter p (x ∷ xs) = let rest = filter p xs in if p x then x ∷ rest else rest

  -- `sorted(xs, key=...)`: a stable insertion sort, `before x y` being `key(x) < key(y)`.
  abbrev pub insert_sorted : (A → A → Bool) → A → List A → List A
  insert_sorted before x [] = x ∷ []
  insert_sorted before x (y ∷ ys) =
      let rest = insert_sorted before x ys in if before y x then y ∷ rest else x ∷ y ∷ ys

  abbrev pub sorted : (A → A → Bool) → List A → List A
  sorted before [] = []
  sorted before (x ∷ xs) = insert_sorted before x (sorted before xs)

module _ {ℓ} {A : Type ℓ} ⦃e : Eq A⦄ where
  -- `a in xs`
  abbrev pub contains : A → List A → Bool
  contains a [] = false
  contains a (x ∷ xs) = e.equal x a || contains a xs

  -- `xs.add(a)`: a second copy is not kept.
  abbrev pub add : A → List A → List A
  add a xs = if contains a xs then xs else xs ++ a ∷ []

  -- `a | b`, the elements of `b` added to `a` in order.
  abbrev pub union_all : List A → List A → List A
  union_all xs [] = xs
  union_all xs (y ∷ ys) = union_all (add y xs) ys

  -- `set(xs)` and `frozenset(xs)`
  abbrev pub set_of : List A → List A
  set_of xs = union_all [] xs

-- `sorted` on texts.
unfoldable pub sorted_texts : List String → List String
sorted_texts xs = sorted text_lt xs
