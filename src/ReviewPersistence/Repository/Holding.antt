-- ===== src/ReviewPersistence/Repository/Holding.antt =====
-- Where ids are distinct, all that is stored under an id is the case that is found under it, and the
-- update of the stored cases is the update of their dictionary.
use ai_data_quality_platform.Base.{
  String, Bool, true, false, some, List, [], ◌∷◌, ◌==◌, contains, text_eq, some-injective, ◌≡◌,
  refl, sym, ap, ◌∙◌, subst, inl, inr, arith, Bool-cases, text_cases, eq_iff, eq_false,
}
use ai_data_quality_platform.Base.Assoc.{insert}
use ai_data_quality_platform.Base.AllOf.{AllOf}
use ai_data_quality_platform.HumanReview.Models.{ReviewCase, find_case}
use ai_data_quality_platform.HumanReview.Workflow.Invariant.{AreDistinct}
use ai_data_quality_platform.ReviewApplication.Models.{PersistedCase}
use ai_data_quality_platform.ReviewApplication.Bundle.{case_ids, cases_in}
use ai_data_quality_platform.ReviewApplication.Bundle.Distinct.{pairs_of}
use ai_data_quality_platform.ReviewPersistence.Rows.Reading.{Succeeds}
use ai_data_quality_platform.ReviewPersistence.Repository.{fetchone}
use ai_data_quality_platform.ReviewPersistence.Repository.Loading.{update_cases}

module _ (case_id : String) where
  abbrev pub is_named : PersistedCase → Bool
  is_named p = p.case.review_case_id == case_id

  -- What an id that is not stored has.
  vacuous :
      (P : PersistedCase → Type 0) (ps : List PersistedCase)
      → contains case_id (case_ids ps) ≡ false
      → AllOf (λ p. p.case.review_case_id ≡ case_id → P p) ps
  vacuous P [] h = tt
  vacuous P (p ∷ ps) h =
      (λ e. cc ((eq_iff p.case.review_case_id case_id).1 e, h), vacuous P ps (ground arith))

  pub fetchone-holds :
      (P : PersistedCase → Type 0) (ps : List PersistedCase) (p : PersistedCase)
      → AreDistinct (case_ids ps)
      → fetchone is_named ps ≡ some p
      → P p
      → AllOf (λ q. q.case.review_case_id ≡ case_id → P q) ps
  unfolding fetchone
  fetchone-holds P [] p distinct h holds = tt
  fetchone-holds P (q ∷ ps) p (absent, distinct) h holds =
      elim (text_cases q.case.review_case_id case_id) [
        | inl hit ↦
            let same : q ≡ p =
              some-injective (rw ((eq_iff q.case.review_case_id case_id).1 hit) at h) in
            (
              λ e. subst P (sym same) holds,
              vacuous P ps (ap (λ w. contains w (case_ids ps)) (sym hit) ∙ absent),
            )
        | inr miss ↦ (
          λ e. absurd (miss e),
          fetchone-holds P ps p distinct (rw (eq_false q.case.review_case_id case_id miss) at h)
              holds,
        )
      ]

  -- The first stored case with the id holds the case that is found.
  pub fetchone-find_case :
      (ps : List PersistedCase) (p : PersistedCase) (c : ReviewCase)
      → fetchone is_named ps ≡ some p
      → find_case case_id (cases_in ps) ≡ some c
      → p.case ≡ c
  unfolding fetchone find_case
  fetchone-find_case [] p c h k = cc
  fetchone-find_case (q ∷ ps) p c h k = elim (Bool-cases (q.case.review_case_id == case_id)) [
    | inl hit ↦
        ap (λ w. w.case) (sym (let e : q ≡ p = some-injective (rw hit at h) in e))
        ∙ some-injective (rw hit at k)
    | inr miss ↦ fetchone-find_case ps p c (rw miss at h) (rw miss at k)
  ]

module _ (case_id : String) (was after : ReviewCase) (now : String)
    (succeeds : Succeeds was after) where
  pairs_of-unchanged :
      (ps : List PersistedCase)
      → contains case_id (case_ids ps) ≡ false
      → pairs_of (update_cases case_id after now ps) ≡ pairs_of ps
  unfolding update_cases
  pairs_of-unchanged [] h = refl
  pairs_of-unchanged (p ∷ ps) h = ground (arith, pairs_of-unchanged ps)

  pub pairs_of-update_cases :
      (ps : List PersistedCase)
      → AreDistinct (case_ids ps)
      → find_case case_id (cases_in ps) ≡ some was
      → pairs_of (update_cases case_id after now ps) ≡ insert case_id after (pairs_of ps)
  unfolding update_cases insert find_case
  pairs_of-update_cases [] distinct h = cc
  pairs_of-update_cases (p ∷ ps) (absent, distinct) h =
      elim (text_cases p.case.review_case_id case_id) [
        | inl same ↦
            let hit : (p.case.review_case_id == case_id) ≡ true =
              (eq_iff p.case.review_case_id case_id).1 same in
            let held : p.case ≡ was = some-injective (rw hit at h) in
            let id : after.review_case_id ≡ p.case.review_case_id =
              succeeds.same_id ∙ ap (λ w. w.review_case_id) (sym held) in
            let rest : pairs_of (update_cases case_id after now ps) ≡ pairs_of ps =
              pairs_of-unchanged ps (ap (λ w. contains w (case_ids ps)) (sym same) ∙ absent) in
            rw (hit, rest) (ap (λ w. (w, after) ∷ pairs_of ps) id)
        | inr other ↦
            let miss : (p.case.review_case_id == case_id) ≡ false =
              eq_false p.case.review_case_id case_id other in
            rw miss (
              ap (λ w. (p.case.review_case_id, p.case) ∷ w)
                (pairs_of-update_cases ps distinct (rw miss at h)))
      ]
