-- ===== src/ReviewApplication/History/Sorting.antt =====
-- An entry with the highest sequence sorts to the end, and what holds of a sorted list holds of the
-- list itself.
use ai_data_quality_platform.Base.{
  ℕ, suc, ◌<◌, Bool, true, false, List, [], ◌∷◌, ◌++◌, length, ◌≡◌, refl, ap, ◌∙◌, inl, inr, arith,
  Bool-cases, insert_sorted, sorted,
}
use ai_data_quality_platform.Base.AllOf.{AllOf}
use ai_data_quality_platform.HumanReview.Models.{ReviewAuditEntry}
use ai_data_quality_platform.ReviewApplication.History.{sequence_before}

module _ {ℓ} {A : Type ℓ} (before : A → A → Bool) where
  length-insert_sorted :
      (x : A) (xs : List A) → length (insert_sorted before x xs) ≡ suc (length xs)
  length-insert_sorted x [] = refl
  length-insert_sorted x (y ∷ ys) = ground (arith, length-insert_sorted x ys)

  pub length-sorted : (xs : List A) → length (sorted before xs) ≡ length xs
  length-sorted [] = refl
  length-sorted (x ∷ xs) = length-insert_sorted x (sorted before xs) ∙ ap suc (length-sorted xs)

  -- An element that comes before nothing goes to the end.
  pub insert_sorted-last :
      (x : A) (xs : List A)
      → AllOf (λ y. before y x ≡ true) xs
      → insert_sorted before x xs ≡ xs ++ x ∷ []
  insert_sorted-last x [] all = refl
  insert_sorted-last x (y ∷ ys) (h, all) = rw h (ap (λ r. y ∷ r) (insert_sorted-last x ys all))

  -- An element that the last one does not come before is inserted in front of it.
  pub insert_sorted-append :
      (x z : A) (xs : List A)
      → before z x ≡ false
      → insert_sorted before x (xs ++ z ∷ []) ≡ insert_sorted before x xs ++ z ∷ []
  insert_sorted-append x z [] h = rw h refl
  insert_sorted-append x z (y ∷ ys) h = elim (Bool-cases (before y x)) [
    | inl later ↦ rw later (ap (λ r. y ∷ r) (insert_sorted-append x z ys h))
    | inr here ↦ rw here refl
  ]

  -- A greatest element at the end stays there.
  pub sorted-append :
      (xs : List A) (z : A)
      → AllOf (λ y. before z y ≡ false) xs
      → sorted before (xs ++ z ∷ []) ≡ sorted before xs ++ z ∷ []
  sorted-append [] z all = refl
  sorted-append (x ∷ xs) z (h, all) =
      ap (insert_sorted before x) (sorted-append xs z all)
      ∙ insert_sorted-append x z (sorted before xs) h

module _ {ℓ κ} {A : Type ℓ} (P : A → Type κ) (before : A → A → Bool) where
  AllOf-uninsert : (x : A) (xs : List A) → AllOf P (insert_sorted before x xs) → P x × AllOf P xs
  AllOf-uninsert x [] (h, all) = (h, tt)
  AllOf-uninsert x (y ∷ ys) all = elim (Bool-cases (before y x)) [
    | inl later ↦
        let (hy, rest) = let at : AllOf P (y ∷ insert_sorted before x ys) = rw later at all in at in
        let (hx, all') = AllOf-uninsert x ys rest in (hx, (hy, all'))
    | inr here ↦ let at : AllOf P (x ∷ y ∷ ys) = rw here at all in at
  ]

  pub AllOf-of_sorted : (xs : List A) → AllOf P (sorted before xs) → AllOf P xs
  AllOf-of_sorted [] all = tt
  AllOf-of_sorted (x ∷ xs) all =
      let (hx, rest) = AllOf-uninsert x (sorted before xs) all in (hx, AllOf-of_sorted xs rest)

-- The entry that takes the next sequence number.
abbrev pub IsBelow : ℕ → ReviewAuditEntry → Type 0
IsBelow n e = e.resolution_sequence < n

pub AllOf-before :
    (z : ReviewAuditEntry) (xs : List ReviewAuditEntry)
    → AllOf (IsBelow z.resolution_sequence) xs
    → AllOf (λ y. sequence_before y z ≡ true) xs
AllOf-before z [] all = tt
AllOf-before z (x ∷ xs) (h, all) = (ground arith, AllOf-before z xs all)
