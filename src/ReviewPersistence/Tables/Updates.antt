-- ===== src/ReviewPersistence/Tables/Updates.antt =====
-- A conditional update changes no column that selects or orders rows, so that a later SELECT finds
-- the updated rows in the same places.
use ai_data_quality_platform.Base.{
  String, Bool, true, false, List, [], ◌∷◌, if◌then◌else◌, filter, insert_sorted, sorted, ◌≡◌, refl,
  ap, ◌∙◌, inl, inr, arith, Bool-cases, text_eq,
}
use ai_data_quality_platform.Base.AllOf.{AllOf}
use ai_data_quality_platform.HumanReview.Models.{ReviewStatus, ReviewCase}
use ai_data_quality_platform.ReviewPersistence.Rows.{CaseRow}
use ai_data_quality_platform.ReviewPersistence.Tables.{
  in_queue, case_order, case_rows, cas_row, cas_update,
}

module _ (applies : CaseRow → Bool) (change : CaseRow → CaseRow) where
  filter-cas_update :
      (p : CaseRow → Bool) (rows : List CaseRow)
      → ((row : CaseRow) → p (change row) ≡ p row)
      → filter p (cas_update applies change rows) ≡ cas_update applies change (filter p rows)
  unfolding cas_update
  filter-cas_update p [] same = refl
  filter-cas_update p (row ∷ rows) same = ground (arith, filter-cas_update p rows same, same row)

  insert_sorted-cas_update :
      (before : CaseRow → CaseRow → Bool) (row : CaseRow) (rows : List CaseRow)
      → ((r s : CaseRow) → before (change r) s ≡ before r s)
      → ((r s : CaseRow) → before r (change s) ≡ before r s)
      → insert_sorted before
          (if applies row then change row else row)
          (cas_update applies change rows)
        ≡ cas_update applies change (insert_sorted before row rows)
  unfolding cas_update
  insert_sorted-cas_update before row [] left right = refl
  insert_sorted-cas_update before row (r ∷ rows) left right = ground (
    arith,
    insert_sorted-cas_update before row rows left right,
    left r row,
    right r row,
    right (change r) row,
  )

  sorted-cas_update :
      (before : CaseRow → CaseRow → Bool) (rows : List CaseRow)
      → ((r s : CaseRow) → before (change r) s ≡ before r s)
      → ((r s : CaseRow) → before r (change s) ≡ before r s)
      → sorted before (cas_update applies change rows)
        ≡ cas_update applies change (sorted before rows)
  unfolding cas_update
  sorted-cas_update before [] left right = refl
  sorted-cas_update before (row ∷ rows) left right =
      ap (insert_sorted before (if applies row then change row else row))
        (sorted-cas_update before rows left right)
      ∙ insert_sorted-cas_update before row (sorted before rows) left right

module _ (applies : CaseRow → Bool) (status : ReviewStatus) (payload : ReviewCase)
    (now : String) where
  pub case_rows-cas_update :
      (other : String) (rows : List CaseRow)
      → case_rows other (cas_update applies (cas_row status payload now) rows)
        ≡ cas_update applies (cas_row status payload now) (case_rows other rows)
  unfolding case_rows case_order cas_row
  case_rows-cas_update other rows =
      ap (sorted case_order)
        (filter-cas_update applies (cas_row status payload now) (in_queue other) rows (λ row. refl))
      ∙ sorted-cas_update applies (cas_row status payload now) case_order
          (filter (in_queue other) rows) (λ r s. refl) (λ r s. refl)

-- An update that applies to no row changes nothing.
pub cas_update-none :
    (applies : CaseRow → Bool) (change : CaseRow → CaseRow) (rows : List CaseRow)
    → AllOf (λ row. applies row ≡ false) rows
    → cas_update applies change rows ≡ rows
unfolding cas_update
cas_update-none applies change [] none = refl
cas_update-none applies change (row ∷ rows) (h, none) =
    rw h (ap (λ r. row ∷ r) (cas_update-none applies change rows none))

-- The rows that are found belong to the queue.
AllOf-filter :
    (p : CaseRow → Bool) (rows : List CaseRow) → AllOf (λ row. p row ≡ true) (filter p rows)
AllOf-filter p [] = tt
AllOf-filter p (row ∷ rows) = elim (Bool-cases (p row)) [
  | inl yes_it ↦ rw yes_it (yes_it, AllOf-filter p rows)
  | inr no_it ↦ rw no_it (AllOf-filter p rows)
]
