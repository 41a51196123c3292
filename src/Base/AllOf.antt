-- ===== src/Base/AllOf.antt =====
-- A property that holds of every element of a list, or of some element.
use Prim.Native.String.{String}
use mathlib.Core.Path.{◌≡◌}
use mathlib.Core.Bool.{Bool}
use mathlib.Core.Option.{some}
use mathlib.Core.List.{List, [], ◌∷◌, ◌++◌}
use mathlib.Core.Logic.{◌⊎◌, inl, inr}
use text.Mathlib.TextEquality.{eq_iff}
use ai_data_quality_platform.Base.Tests.{◌==◌, Bool-cases}
use ai_data_quality_platform.Base.Sets.{insert_sorted, sorted}
use ai_data_quality_platform.Base.Assoc.{Dict, lookup, insert}

module _ {ℓ κ} {A : Type ℓ} where
  abbrev pub AllOf : (A → Type κ) → List A → Type κ
  AllOf P [] = Unit
  AllOf P (x ∷ xs) = P x × AllOf P xs

  pub AllOf-insert_sorted :
      (P : A → Type κ) (before : A → A → Bool) (x : A) (xs : List A)
      → P x
      → AllOf P xs
      → AllOf P (insert_sorted before x xs)
  AllOf-insert_sorted P before x [] h all = (h, tt)
  AllOf-insert_sorted P before x (y ∷ ys) h (hy, all) = elim (Bool-cases (before y x)) [
    | inl later ↦ rw later (hy, AllOf-insert_sorted P before x ys h all)
    | inr earlier ↦ rw earlier (h, (hy, all))
  ]

  pub AllOf-sorted :
      (P : A → Type κ) (before : A → A → Bool) (xs : List A)
      → AllOf P xs
      → AllOf P (sorted before xs)
  AllOf-sorted P before [] all = tt
  AllOf-sorted P before (x ∷ xs) (h, all) =
      AllOf-insert_sorted P before x (sorted before xs) h (AllOf-sorted P before xs all)

  pub AllOf-append :
      (P : A → Type κ) (xs ys : List A) → AllOf P xs → AllOf P ys → AllOf P (xs ++ ys)
  AllOf-append P [] ys h k = k
  AllOf-append P (x ∷ xs) ys (hx, h) k = (hx, AllOf-append P xs ys h k)

  pub AllOf-weaken :
      (P Q : A → Type κ) (xs : List A) → ((x : A) → P x → Q x) → AllOf P xs → AllOf Q xs
  AllOf-weaken P Q [] step all = tt
  AllOf-weaken P Q (x ∷ xs) step (h, all) = (step x h, AllOf-weaken P Q xs step all)

module _ {ℓ} {A : Type ℓ} (P : A → Type 0) where
  -- Some element of the list has the property.
  abbrev pub AnyOf : List A → Type 0
  AnyOf [] = ⊥
  AnyOf (x ∷ xs) = P x ⊎ AnyOf xs

  pub AnyOf-append : (xs ys : List A) → AnyOf xs → AnyOf (xs ++ ys)
  AnyOf-append [] ys h = absurd h
  AnyOf-append (x ∷ xs) ys (inl here) = inl here
  AnyOf-append (x ∷ xs) ys (inr later) = inr (AnyOf-append xs ys later)

  pub AnyOf-last : (xs : List A) (x : A) → P x → AnyOf (xs ++ x ∷ [])
  AnyOf-last [] x h = inl h
  AnyOf-last (y ∷ xs) x h = inr (AnyOf-last xs x h)

module _ {ℓ κ} {V : Type ℓ} (P : String × V → Type κ) where
  pub AllOf-lookup : (k : String) (v : V) (d : Dict V) → AllOf P d → lookup k d ≡ some v → P (k, v)
  unfolding lookup
  AllOf-lookup k v [] all h = cc
  AllOf-lookup k v ((j, w) ∷ d) (p, all) h = elim (Bool-cases (j == k)) [
    | inl same ↦
        let here : some w ≡ some v = rw same at h in
        let jk : j ≡ k = (eq_iff j k).0 same in let wv : w ≡ v = cc in rw (← jk, ← wv) p
    | inr other ↦ AllOf-lookup k v d all (rw other at h)
  ]

  pub AllOf-insert :
      (k : String) (v : V) (d : Dict V) → AllOf P d → P (k, v) → AllOf P (insert k v d)
  unfolding insert
  AllOf-insert k v [] all h = (h, tt)
  AllOf-insert k v ((j, w) ∷ d) (p, all) h = elim (Bool-cases (j == k)) [
    | inl same ↦ let jk : j ≡ k = (eq_iff j k).0 same in rw same (rw jk h, all)
    | inr other ↦ rw other (p, AllOf-insert k v d all h)
  ]
