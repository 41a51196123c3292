-- ===== src/ReviewPersistence/Repository/Loading.antt =====
-- What a queue loads after one of its cases was updated and an event was appended.
use ai_data_quality_platform.Base.{
  ℕ, String, true, false, not, List, [], ◌∷◌, ◌&&◌, ◌==◌, if◌then◌else◌, text_eq, ok,
  raise_if-false, ◌≡◌, refl, sym, ap, ◌∙◌, subst, inl, inr, arith, Bool-cases, text_cases, eq_iff,
  eq_false,
}
use ai_data_quality_platform.Base.AllOf.{AllOf}
use ai_data_quality_platform.HumanReview.Models.{status_eq, ReviewCase}
use ai_data_quality_platform.HumanReview.Workflow.{replace_case}
use ai_data_quality_platform.ReviewApplication.Errors.{persisted_case_integrity}
use ai_data_quality_platform.ReviewApplication.Models.{PersistedCase, require_text}
use ai_data_quality_platform.ReviewApplication.Bundle.{
  assert_unique_cases, assert_record_coverage, cases_in,
}
use ai_data_quality_platform.ReviewPersistence.Rows.{
  StorageTools, CaseRow, review_case_from_payload, assert_row_agrees_with_payload,
  row_to_persisted_case,
}
use ai_data_quality_platform.ReviewPersistence.Rows.Reading.{
  IsStored, Succeeds, Reads, row_to_persisted_case-Reads, updated_row, updated_case,
  row_to_persisted_case-updated,
}
use ai_data_quality_platform.ReviewPersistence.Tables.{in_queue, cas_applies}

-- A row that was read names the case that it holds.
read-id :
    (tools : StorageTools) (row : CaseRow) (p : PersistedCase)
    → row_to_persisted_case tools row ≡ ok p
    → row.review_case_id ≡ p.case.review_case_id
unfolding assert_row_agrees_with_payload review_case_from_payload
read-id tools row p h =
    let r : Reads tools row p = row_to_persisted_case-Reads tools row p h in
    let agreed : not (
          row.review_case_id == row.case_payload.review_case_id
          && row.record_a_id == row.case_payload.pair.record_a_id
          && row.record_b_id == row.case_payload.pair.record_b_id
          && status_eq row.status row.case_payload.status)
        ≡ false =
      raise_if-false _ _ r.agrees in
    (eq_iff row.review_case_id row.case_payload.review_case_id).0 (ground arith)
    ∙ sym (ap (λ w. w.case.review_case_id) r.value)

module _ (case_id : String) (after : ReviewCase) (now : String) where
  -- The stored case with the id, updated.
  abbrev pub update_one : PersistedCase → PersistedCase
  update_one p = if p.case.review_case_id == case_id then updated_case after now p else p

  unfoldable pub update_cases : List PersistedCase → List PersistedCase
  update_cases [] = []
  update_cases (p ∷ ps) = update_one p ∷ update_cases ps

  pub cases_in-update_cases :
      (ps : List PersistedCase)
      → cases_in (update_cases ps) ≡ replace_case case_id after (cases_in ps)
  unfolding update_cases replace_case
  cases_in-update_cases [] = refl
  cases_in-update_cases (p ∷ ps) = ground (arith, cases_in-update_cases ps)

module _ (case_id : String) (was after : ReviewCase) (now : String)
    (succeeds : Succeeds was after) where
  -- Every stored case with the id holds `was`.
  abbrev pub Holds : PersistedCase → Type 0
  Holds p = p.case.review_case_id ≡ case_id → p.case ≡ was

  update_one-id :
      (p : PersistedCase)
      → Holds p
      → (update_one case_id after now p).case.review_case_id ≡ p.case.review_case_id
  update_one-id p holds = elim (Bool-cases (p.case.review_case_id == case_id)) [
    | inl hit ↦ rw hit (
        succeeds.same_id
        ∙ sym (ap (λ w. w.review_case_id) (holds ((eq_iff p.case.review_case_id case_id).0 hit))))
    | inr miss ↦ rw miss refl
  ]

  update_one-pair :
      (p : PersistedCase) → Holds p → (update_one case_id after now p).case.pair ≡ p.case.pair
  update_one-pair p holds = elim (Bool-cases (p.case.review_case_id == case_id)) [
    | inl hit ↦ rw hit (
        succeeds.same_pair
        ∙ sym (ap (λ w. w.pair) (holds ((eq_iff p.case.review_case_id case_id).0 hit))))
    | inr miss ↦ rw miss refl
  ]

  pub assert_unique_cases-update_cases :
      (seen : List String) (ps : List PersistedCase)
      → AllOf Holds ps
      → assert_unique_cases seen (update_cases case_id after now ps) ≡ assert_unique_cases seen ps
  unfolding update_cases assert_unique_cases
  assert_unique_cases-update_cases seen [] holds = refl
  assert_unique_cases-update_cases seen (p ∷ ps) (h, holds) =
      rw
        (
          update_one-id p h,
          assert_unique_cases-update_cases (p.case.review_case_id ∷ seen) ps holds,
        )
        refl

  pub assert_record_coverage-update_cases :
      (known : List String) (ps : List PersistedCase)
      → AllOf Holds ps
      → assert_record_coverage known (update_cases case_id after now ps)
        ≡ assert_record_coverage known ps
  unfolding update_cases assert_record_coverage
  assert_record_coverage-update_cases known [] holds = refl
  assert_record_coverage-update_cases known (p ∷ ps) (h, holds) =
      rw (update_one-pair p h, assert_record_coverage-update_cases known ps holds) refl

module _ (tools : StorageTools) (queue case_id : String) (version : ℕ) (was after : ReviewCase)
    (now : String) (succeeds : Succeeds was after)
    (timely : require_text tools.strip persisted_case_integrity now ≡ ok tt) where
  -- What is known of a row of the queue and of the case that it is read as.
  pub record Matches (row : CaseRow) (p : PersistedCase) : Type 0 where
    pub here : in_queue queue row ≡ true
    pub stored : IsStored tools row
    pub reads : row_to_persisted_case tools row ≡ ok p
    pub holds : p.case.review_case_id ≡ case_id → (p.case ≡ was) × (p.version ≡ version)

  pub read-changed :
      (row : CaseRow) (p : PersistedCase)
      → Matches row p
      → row_to_persisted_case tools
          (if cas_applies queue case_id version row then updated_row tools after now row else row)
        ≡ ok (update_one case_id after now p)
  unfolding review_case_from_payload
  read-changed row p m =
      let same : row.review_case_id ≡ p.case.review_case_id = read-id tools row p m.reads in
      let r : Reads tools row p = row_to_persisted_case-Reads tools row p m.reads in
      elim (text_cases p.case.review_case_id case_id) [
        | inl hit ↦
            let (held, at_version) = m.holds hit in
            let applies : cas_applies queue case_id version row ≡ true =
              ground (arith, eq_iff row.review_case_id case_id, ap (λ w. w.version) r.value) in
            rw (applies, (eq_iff p.case.review_case_id case_id).1 hit)
              (row_to_persisted_case-updated tools row after now m.stored
                (subst (λ w. Succeeds w after) (sym held ∙ ap (λ w. w.case) r.value) succeeds) p
                timely m.reads)
        | inr miss ↦
            let applies : cas_applies queue case_id version row ≡ false =
              ground (arith, eq_iff row.review_case_id case_id) in
            rw (applies, eq_false p.case.review_case_id case_id miss) m.reads
      ]
