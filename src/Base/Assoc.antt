-- ===== src/Base/Assoc.antt =====
-- Python's `dict` with text keys, as an association list in insertion order.
use Prim.Native.String.{String}
use mathlib.Core.Path.{◌≡◌, refl, ap, sym, ◌∙◌}
use mathlib.Core.Logic.{◌≢◌, ◌⊎◌, inl, inr}
use mathlib.Core.Option.{Option, none, some}
use mathlib.Core.List.{List, [], ◌∷◌, ◌++◌, append-nil, append_assoc}
use native.Mathlib.Omega.{arith}
use text.Mathlib.TextEquality.{eq_iff}
use mathlib.Core.Bool.{false}
use ai_data_quality_platform.Base.Sets.{contains, text_eq}
use ai_data_quality_platform.Base.Tests.{◌==◌, Bool-cases, if◌then◌else◌}

abbrev pub Dict {ℓ} : Type ℓ → Type ℓ
Dict V = List (String × V)

module _ {ℓ} {V : Type ℓ} where
  -- `d.get(k)`; `d[k]` raises KeyError where this is `none`.
  unfoldable pub lookup : String → Dict V → Option V
  lookup k [] = none
  lookup k ((j, v) ∷ d) = if j == k then some v else lookup k d

  -- `d[k] = v`
  unfoldable pub insert : String → V → Dict V → Dict V
  insert k v [] = (k, v) ∷ []
  insert k v ((j, w) ∷ d) = if j == k then (j, v) ∷ d else (j, w) ∷ insert k v d

  -- `d.keys()`, or iteration over `d`
  unfoldable pub keys : Dict V → List String
  keys [] = []
  keys ((j, v) ∷ d) = j ∷ keys d

  put_all : Dict V → List (String × V) → Dict V
  unfolding insert
  put_all d [] = d
  put_all d ((k, v) ∷ rest) = put_all (insert k v d) rest

  -- `{k: v for k, v in pairs}`
  unfoldable pub dict_of : List (String × V) → Dict V
  unfolding put_all
  dict_of pairs = put_all [] pairs

  pub lookup-insert :
      (k j : String) (v : V) (d : Dict V)
      → lookup j (insert k v d) ≡ (if k == j then some v else lookup j d)
  unfolding lookup insert
  lookup-insert k j v [] = refl
  lookup-insert k j v ((i, w) ∷ d) =
      ground (arith, eq_iff k j, eq_iff i k, eq_iff i j, lookup-insert k j v d)

  pub lookup-insert_self : (k : String) (v : V) (d : Dict V) → lookup k (insert k v d) ≡ some v
  lookup-insert_self k v d = ground (arith, lookup-insert k k v d, eq_iff k k)

  pub lookup-insert_ne :
      (k j : String) (v : V) (d : Dict V) → k ≢ j → lookup j (insert k v d) ≡ lookup j d
  lookup-insert_ne k j v d ne = ground (arith, lookup-insert k j v d, eq_iff k j)

  -- A write to a key that is there leaves the keys, and their order, as they are.
  pub keys-insert :
      (k : String) (v w : V) (d : Dict V) → lookup k d ≡ some w → keys (insert k v d) ≡ keys d
  unfolding lookup insert keys
  keys-insert k v w [] h = cc
  keys-insert k v w ((j, u) ∷ d) h = ground (arith, keys-insert k v w d)

  -- What is found after a write was written, or was there before.
  pub lookup-insert_cases :
      (k j : String) (v w : V) (d : Dict V)
      → lookup j (insert k v d) ≡ some w
      → ((k ≡ j) × (v ≡ w)) ⊎ ((k ≢ j) × (lookup j d ≡ some w))
  lookup-insert_cases k j v w d h = elim (Bool-cases (k == j)) [
    | inl same ↦ inl ((eq_iff k j).0 same, ground (arith, lookup-insert k j v d))
    | inr other ↦ inr (λ e. cc (other, (eq_iff k j).1 e), ground (arith, lookup-insert k j v d))
  ]

-- No key of the pairs is a key of the dictionary, nor another pair's.
abbrev pub AreNew {ℓ} : {V : Type ℓ} → List String → Dict V → Type 0
AreNew known [] = Unit
AreNew known ((k, v) ∷ rest) = (contains k known ≡ false) × AreNew (known ++ k ∷ []) rest

module _ {ℓ} {V : Type ℓ} where
  insert-new :
      (k : String) (v : V) (d : Dict V)
      → contains k (keys d) ≡ false
      → insert k v d ≡ d ++ (k, v) ∷ []
  unfolding insert keys
  insert-new k v [] h = refl
  insert-new k v ((j, w) ∷ d) h =
      let miss : (j == k) ≡ false = ground arith in
      let rest : contains k (keys d) ≡ false = ground arith in
      rw miss (ap (λ r. (j, w) ∷ r) (insert-new k v d rest))

  keys-append : (d : Dict V) (k : String) (v : V) → keys (d ++ (k, v) ∷ []) ≡ keys d ++ k ∷ []
  unfolding keys
  keys-append [] k v = refl
  keys-append ((j, w) ∷ d) k v = ap (λ r. j ∷ r) (keys-append d k v)

  put_all-new : (d pairs : Dict V) → AreNew (keys d) pairs → put_all d pairs ≡ d ++ pairs
  unfolding put_all
  put_all-new d [] h = sym (append-nil d)
  put_all-new d ((k, v) ∷ rest) (h, new) =
      ap (λ w. put_all w rest) (insert-new k v d h)
      ∙ put_all-new (d ++ (k, v) ∷ []) rest (rw (keys-append d k v) new)
      ∙ append_assoc d ((k, v) ∷ []) rest

  -- Of pairs with new keys the dictionary is the list.
  pub dict_of-distinct : (pairs : Dict V) → AreNew [] pairs → dict_of pairs ≡ pairs
  unfolding dict_of keys
  dict_of-distinct pairs new = put_all-new [] pairs new
