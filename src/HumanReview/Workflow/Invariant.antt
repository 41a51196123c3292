-- ===== src/HumanReview/Workflow/Invariant.antt =====
-- The invariant of a workflow state, kept by every resolution.
use ai_data_quality_platform.Base.{
  ℕ, ◌+◌, String, true, false, Option, none, some, List, [], ◌∷◌, ◌++◌, ◌==◌, if◌then◌else◌,
  contains, text_eq, ◌≡◌, refl, sym, ap, ◌∙◌, inl, inr, arith, eq_iff, length, length-append,
  Bool-cases,
}
use ai_data_quality_platform.Base.AllOf.{AnyOf, AnyOf-append, AnyOf-last}
use ai_data_quality_platform.EntityResolution.Models.{match_decision_value}
use ai_data_quality_platform.HumanReview.Models.{
  human_decision_value, ReviewStatus, HumanReviewDecision, status_eq, ReviewResolution,
  ReviewAuditEntry, ReviewCase, ReviewWorkflowState, find_case,
}
use ai_data_quality_platform.HumanReview.Workflow.{
  resolution_of, status_for_decision, resolved_case, audit_entry_of, replace_case, record_decision,
}

-- A case has a resolution just where it is not pending, and the two tell one story.
abbrev pub Agrees : ReviewStatus → String → Option ReviewResolution → Type 0
Agrees status case_id none = status ≡ ReviewStatus.pending
Agrees status case_id (some r) =
    (status ≡ status_for_decision r.human_decision) × (r.review_case_id ≡ case_id)

abbrev pub AllAgree : List ReviewCase → Type 0
AllAgree [] = Unit
AllAgree (c ∷ cases) = Agrees c.status c.review_case_id c.resolution × AllAgree cases

abbrev pub ids_of : List ReviewCase → List String
ids_of [] = []
ids_of (c ∷ cases) = c.review_case_id ∷ ids_of cases

-- No id twice.
abbrev pub AreDistinct : List String → Type 0
AreDistinct [] = Unit
AreDistinct (x ∷ xs) = (contains x xs ≡ false) × AreDistinct xs

-- The sequences k, k + 1, k + 2, ... with no gap and no repeat.
abbrev pub NumberedFrom : ℕ → List ReviewAuditEntry → Type 0
NumberedFrom k [] = Unit
NumberedFrom k (e ∷ trail) = (e.resolution_sequence ≡ k) × NumberedFrom (k + 1) trail

abbrev pub resolved_count : List ReviewCase → ℕ
resolved_count [] = 0
resolved_count (c ∷ cases) =
    (if status_eq c.status ReviewStatus.pending then 0 else 1) + resolved_count cases

-- The entry of a resolved case: it repeats the case, its pair and its resolution.
pub record IsEntryOf (c : ReviewCase) (r : ReviewResolution) (e : ReviewAuditEntry) : Type 0 where
  pub same_case : e.review_case_id ≡ c.review_case_id
  pub same_left : e.record_a_id ≡ c.pair.record_a_id
  pub same_right : e.record_b_id ≡ c.pair.record_b_id
  pub machine : e.machine_decision ≡ match_decision_value r.machine_decision
  pub reason : e.machine_reason ≡ r.machine_reason
  pub human : e.human_decision ≡ human_decision_value r.human_decision
  pub reviewer : e.reviewer_id ≡ r.reviewer_id
  pub sequence : e.resolution_sequence ≡ r.resolution_sequence
  pub action : e.downstream_action ≡ r.downstream_action

-- A case that is resolved has its entry in the trail.
abbrev pub HasEntry : List ReviewAuditEntry → ReviewCase → Option ReviewResolution → Type 0
HasEntry trail c none = Unit
HasEntry trail c (some r) = AnyOf (IsEntryOf c r) trail

abbrev pub AllEntered : List ReviewAuditEntry → List ReviewCase → Type 0
AllEntered trail [] = Unit
AllEntered trail (c ∷ cases) = HasEntry trail c c.resolution × AllEntered trail cases

pub record IsValid (s : ReviewWorkflowState) : Type 0 where
  pub agree : AllAgree s.cases
  pub distinct : AreDistinct (ids_of s.cases)
  pub numbered : NumberedFrom 1 s.audit_trail
  pub next : s.next_resolution_sequence ≡ length s.audit_trail + 1
  pub accounted : resolved_count s.cases ≡ length s.audit_trail
  pub entered : AllEntered s.audit_trail s.cases

pub find_case-id :
    (case_id : String) (cases : List ReviewCase) (c : ReviewCase)
    → find_case case_id cases ≡ some c
    → c.review_case_id ≡ case_id
unfolding find_case
find_case-id case_id [] c h = cc
find_case-id case_id (d ∷ cases) c h =
    ground (arith, eq_iff d.review_case_id case_id, find_case-id case_id cases c)

module _ (case_id : String) (updated : ReviewCase)
    (same_id : updated.review_case_id ≡ case_id) where
  pub ids-replace_case :
      (cases : List ReviewCase) → ids_of (replace_case case_id updated cases) ≡ ids_of cases
  unfolding replace_case
  ids-replace_case [] = refl
  ids-replace_case (c ∷ cases) =
      ground (arith, eq_iff c.review_case_id case_id, ids-replace_case cases)

  AllAgree-replace_case :
      (cases : List ReviewCase)
      → Agrees updated.status updated.review_case_id updated.resolution
      → AllAgree cases
      → AllAgree (replace_case case_id updated cases)
  unfolding replace_case
  AllAgree-replace_case [] a h = tt
  AllAgree-replace_case (c ∷ cases) a h =
      let rest : AllAgree (replace_case case_id updated cases) =
        AllAgree-replace_case cases a h.1 in
      elim (Bool-cases (c.review_case_id == case_id)) [
        | inl hit ↦ rw hit (a, rest)
        | inr miss ↦ rw miss (h.0, rest)
      ]

  pub replace_case-absent :
      (cases : List ReviewCase)
      → contains case_id (ids_of cases) ≡ false
      → replace_case case_id updated cases ≡ cases
  unfolding replace_case
  replace_case-absent [] h = refl
  replace_case-absent (c ∷ cases) h = ground (arith, replace_case-absent cases)

  -- One pending case becomes one that is not.
  resolved_count-replace_case :
      (cases : List ReviewCase) (c : ReviewCase)
      → AreDistinct (ids_of cases)
      → find_case case_id cases ≡ some c
      → status_eq c.status ReviewStatus.pending ≡ true
      → status_eq updated.status ReviewStatus.pending ≡ false
      → resolved_count (replace_case case_id updated cases) ≡ resolved_count cases + 1
  unfolding replace_case find_case
  resolved_count-replace_case [] c d f p u = cc
  resolved_count-replace_case (x ∷ cases) c d f p u =
      elim (Bool-cases (x.review_case_id == case_id)) [
        | inl hit ↦
            let absent : contains case_id (ids_of cases) ≡ false =
              ap (λ w. contains w (ids_of cases)) (sym ((eq_iff x.review_case_id case_id).0 hit))
              ∙ d.0 in
            let found : x ≡ c = ground arith in
            let was : status_eq x.status ReviewStatus.pending ≡ true =
              ap (λ w. status_eq w.status ReviewStatus.pending) found ∙ p in
            rw (hit, replace_case-absent cases absent, was, u) (omega arith)
        | inr miss ↦
            let rest : resolved_count (replace_case case_id updated cases)
                ≡ resolved_count cases + 1 =
              resolved_count-replace_case cases c d.1 (ground arith) p u in
            rw miss (omega arith)
      ]

pub NumberedFrom-append :
    (k : ℕ) (trail : List ReviewAuditEntry) (e : ReviewAuditEntry)
    → NumberedFrom k trail
    → e.resolution_sequence ≡ k + length trail
    → NumberedFrom k (trail ++ e ∷ [])
NumberedFrom-append k [] e h s = (omega arith, tt)
NumberedFrom-append k (x ∷ trail) e h s =
    (h.0, NumberedFrom-append (k + 1) trail e h.1 (omega arith))

status_eq-pending :
    (status : ReviewStatus)
    → status_eq status ReviewStatus.pending ≡ true
    → status ≡ ReviewStatus.pending
status_eq-pending ReviewStatus.pending h = refl
status_eq-pending ReviewStatus.match h = cc
status_eq-pending ReviewStatus.no_match h = cc
status_eq-pending ReviewStatus.deferred h = cc

-- No decision leaves a case pending.
pub decision-not_pending :
    (d : HumanReviewDecision) → status_eq (status_for_decision d) ReviewStatus.pending ≡ false
unfolding status_for_decision
decision-not_pending HumanReviewDecision.match = refl
decision-not_pending _ = refl

HasEntry-append :
    (trail : List ReviewAuditEntry) (e : ReviewAuditEntry) (c : ReviewCase)
    (r : Option ReviewResolution)
    → HasEntry trail c r
    → HasEntry (trail ++ e ∷ []) c r
HasEntry-append trail e c none h = tt
HasEntry-append trail e c (some r) h = AnyOf-append (IsEntryOf c r) trail (e ∷ []) h

AllEntered-replace_case :
    (case_id : String) (updated : ReviewCase) (trail : List ReviewAuditEntry) (e : ReviewAuditEntry)
    (cases : List ReviewCase)
    → HasEntry (trail ++ e ∷ []) updated updated.resolution
    → AllEntered trail cases
    → AllEntered (trail ++ e ∷ []) (replace_case case_id updated cases)
unfolding replace_case
AllEntered-replace_case case_id updated trail e [] new h = tt
AllEntered-replace_case case_id updated trail e (c ∷ cases) new (old, h) =
    let rest = AllEntered-replace_case case_id updated trail e cases new h in
    elim (Bool-cases (c.review_case_id == case_id)) [
      | inl hit ↦ rw hit (new, rest)
      | inr miss ↦ rw miss (HasEntry-append trail e c c.resolution old, rest)
    ]

-- The entry that is appended is that of the case that is resolved.
audit_entry_of-IsEntryOf :
    (s : ReviewWorkflowState) (c : ReviewCase) (d : HumanReviewDecision) (reviewer : Option String)
    → IsEntryOf
        (resolved_case s c d reviewer)
        (resolution_of s c d reviewer)
        (audit_entry_of s c d reviewer)
unfolding audit_entry_of resolved_case resolution_of
audit_entry_of-IsEntryOf s c d reviewer = record {
  same_case = refl;
  same_left = refl;
  same_right = refl;
  machine = refl;
  reason = refl;
  human = refl;
  reviewer = refl;
  sequence = refl;
  action = refl;
}

resolved_case-HasEntry :
    (s : ReviewWorkflowState) (c : ReviewCase) (d : HumanReviewDecision) (reviewer : Option String)
    → HasEntry
        (s.audit_trail ++ audit_entry_of s c d reviewer ∷ [])
        (resolved_case s c d reviewer)
        (resolved_case s c d reviewer).resolution
unfolding resolved_case
resolved_case-HasEntry s c d reviewer =
    AnyOf-last (IsEntryOf (resolved_case s c d reviewer) (resolution_of s c d reviewer))
      s.audit_trail (audit_entry_of s c d reviewer) (audit_entry_of-IsEntryOf s c d reviewer)

pub record_decision-IsValid :
    (s : ReviewWorkflowState) (case_id : String) (c : ReviewCase) (d : HumanReviewDecision)
    (reviewer : Option String)
    → find_case case_id s.cases ≡ some c
    → status_eq c.status ReviewStatus.pending ≡ true
    → IsValid s
    → IsValid (record_decision s case_id c d reviewer)
unfolding record_decision
record_decision-IsValid s case_id c d reviewer found pending v =
    let same_id : (resolved_case s c d reviewer).review_case_id ≡ case_id =
      find_case-id case_id s.cases c found in
    record {
      agree =
          AllAgree-replace_case case_id (resolved_case s c d reviewer) same_id s.cases (refl, refl)
            v.agree;
      distinct =
          rw (ids-replace_case case_id (resolved_case s c d reviewer) same_id s.cases) v.distinct;
      numbered =
          NumberedFrom-append 1 s.audit_trail (audit_entry_of s c d reviewer) v.numbered
            (omega (arith, v.next));
      next =
          rw (length-append s.audit_trail (audit_entry_of s c d reviewer ∷ []))
            (omega (arith, v.next));
      accounted = rw (length-append s.audit_trail (audit_entry_of s c d reviewer ∷ [])) (
          omega (
            arith,
            v.accounted,
            resolved_count-replace_case case_id (resolved_case s c d reviewer) same_id s.cases c
                v.distinct found pending (decision-not_pending d),
          ));
      entered =
          AllEntered-replace_case case_id (resolved_case s c d reviewer) s.audit_trail
            (audit_entry_of s c d reviewer) s.cases (resolved_case-HasEntry s c d reviewer)
            v.entered;
    }
