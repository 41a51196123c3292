-- ===== src/HumanReview/Workflow/Transitions.antt =====
-- Which resolutions succeed, what they change, and that a resolved case is final.
use ai_data_quality_platform.Base.{
  String, true, false, Option, none, some, List, [], ◌∷◌, ◌==◌, ok, err, ◌>>=◌, text_eq, ◌≡◌, ◌≢◌,
  refl, sym, ap, ◌∙◌, inl, inr, arith, eq_iff, Bool-cases, Option-cases, returned-bind, subst,
}
use ai_data_quality_platform.EntityResolution.Conflicts.{TextTools}
use ai_data_quality_platform.HumanReview.Models.{
  ReviewStatus, HumanReviewDecision, status_eq, ReviewCase, ReviewWorkflowState, find_case,
  case_by_id,
}
use ai_data_quality_platform.HumanReview.Errors.{case_not_found, invalid_transition}
use ai_data_quality_platform.HumanReview.Workflow.{
  ReviewContext, get_case, authorize_decision, resolved_case, replace_case, record_decision,
  resolve_case,
}
use ai_data_quality_platform.HumanReview.Workflow.Invariant.{
  IsValid, find_case-id, record_decision-IsValid, decision-not_pending,
}

pub resolved_case-id :
    (s : ReviewWorkflowState) (c : ReviewCase) (d : HumanReviewDecision) (reviewer : Option String)
    → (resolved_case s c d reviewer).review_case_id ≡ c.review_case_id
unfolding resolved_case
resolved_case-id s c d reviewer = refl

pub resolved_case-settled :
    (s : ReviewWorkflowState) (c : ReviewCase) (d : HumanReviewDecision) (reviewer : Option String)
    → status_eq (resolved_case s c d reviewer).status ReviewStatus.pending ≡ false
unfolding resolved_case
resolved_case-settled s c d reviewer = decision-not_pending d

pub record_decision-cases :
    (s : ReviewWorkflowState) (case_id : String) (c : ReviewCase) (d : HumanReviewDecision)
    (reviewer : Option String)
    → (record_decision s case_id c d reviewer).cases
      ≡ replace_case case_id (resolved_case s c d reviewer) s.cases
unfolding record_decision
record_decision-cases s case_id c d reviewer = refl

module _ (case_id : String) (updated : ReviewCase)
    (same_id : updated.review_case_id ≡ case_id) where
  find-replace_self :
      (cases : List ReviewCase) (c : ReviewCase)
      → find_case case_id cases ≡ some c
      → find_case case_id (replace_case case_id updated cases) ≡ some updated
  unfolding find_case replace_case
  find-replace_self [] c h = cc
  find-replace_self (x ∷ cases) c h = elim (Bool-cases (x.review_case_id == case_id)) [
    | inl hit ↦ rw (hit, (eq_iff updated.review_case_id case_id).1 same_id)
    | inr miss ↦ rw (miss, miss) (find-replace_self cases c (rw miss at h))
  ]

  find-replace_ne :
      (other : String) (cases : List ReviewCase)
      → other ≢ case_id
      → find_case other (replace_case case_id updated cases) ≡ find_case other cases
  unfolding find_case replace_case
  find-replace_ne other [] ne = refl
  find-replace_ne other (x ∷ cases) ne = ground (
    arith,
    find-replace_ne other cases ne,
    eq_iff x.review_case_id case_id,
    eq_iff x.review_case_id other,
    eq_iff updated.review_case_id other,
  )

-- What a resolution that succeeded went through.
pub record Resolved (tools : TextTools) (s : ReviewWorkflowState) (case_id : String)
    (d : HumanReviewDecision) (reviewer : Option String) (context : ReviewContext)
    (s' : ReviewWorkflowState) : Type 0 where
  pub was : ReviewCase
  pub found : find_case case_id s.cases ≡ some was
  pub pending : status_eq was.status ReviewStatus.pending ≡ true
  pub authorized : authorize_decision tools s was d context ≡ ok tt
  pub recorded : s' ≡ record_decision s case_id was d reviewer

get_case-missing :
    (s : ReviewWorkflowState) (case_id : String)
    → find_case case_id s.cases ≡ none
    → get_case s case_id ≡ err case_not_found
unfolding get_case case_by_id
get_case-missing s case_id h = rw (h, get_case)

get_case-found :
    (s : ReviewWorkflowState) (case_id : String) (c : ReviewCase)
    → find_case case_id s.cases ≡ some c
    → get_case s case_id ≡ ok c
unfolding get_case case_by_id
get_case-found s case_id c h = rw (h, get_case)

module _ (tools : TextTools) (s : ReviewWorkflowState) (case_id : String) (d : HumanReviewDecision)
    (reviewer : Option String) (context : ReviewContext) where
  pub resolve-missing :
      find_case case_id s.cases ≡ none
      → resolve_case tools s case_id d reviewer context ≡ err case_not_found
  unfolding resolve_case
  resolve-missing h = rw (get_case-missing s case_id h)

  pub resolve-settled :
      (c : ReviewCase)
      → find_case case_id s.cases ≡ some c
      → status_eq c.status ReviewStatus.pending ≡ false
      → resolve_case tools s case_id d reviewer context ≡ err invalid_transition
  unfolding resolve_case
  resolve-settled c h p = rw (get_case-found s case_id c h) (rw p)

  pub resolve-pending :
      (c : ReviewCase)
      → find_case case_id s.cases ≡ some c
      → status_eq c.status ReviewStatus.pending ≡ true
      → resolve_case tools s case_id d reviewer context ≡ (
          authorize_decision tools s c d context >>= λ _.
          ok (record_decision s case_id c d reviewer))
  unfolding resolve_case
  resolve-pending c h p = rw (get_case-found s case_id c h) (rw p)

  pub resolve_case-Resolved :
      (s' : ReviewWorkflowState)
      → resolve_case tools s case_id d reviewer context ≡ ok s'
      → Resolved tools s case_id d reviewer context s'
  resolve_case-Resolved s' h = elim (Option-cases (find_case case_id s.cases)) [
    | inl missing ↦ cc (resolve-missing missing)
    | inr (c, found) ↦ elim (Bool-cases (status_eq c.status ReviewStatus.pending)) [
      | inr settled ↦ cc (resolve-settled c found settled)
      | inl pending ↦
          let (u, recorded, authorized) =
            returned-bind (authorize_decision tools s c d context)
              (λ _. ok (record_decision s case_id c d reviewer))
              (sym (resolve-pending c found pending) ∙ h) in
          record {
            was = c;
            found = found;
            pending = pending;
            authorized = authorized;
            recorded = cc;
          }
    ]
  ]

  -- A resolution that succeeds keeps the invariant: statuses agree with resolutions, ids are distinct,
  -- the audit trail is numbered 1, 2, 3 with the next number free and has as many entries as there are
  -- resolved cases, and every resolved case has an entry that repeats its id, its pair and its
  -- resolution.
  pub resolve_case-IsValid :
      (s' : ReviewWorkflowState)
      → IsValid s
      → resolve_case tools s case_id d reviewer context ≡ ok s'
      → IsValid s'
  resolve_case-IsValid s' v h =
      let r : Resolved tools s case_id d reviewer context s' = resolve_case-Resolved s' h in
      subst IsValid (sym r.recorded)
        (record_decision-IsValid s case_id r.was d reviewer r.found r.pending v)

  -- It changes the case with the id, and no case with another id.
  pub find_case-resolve_case :
      (s' : ReviewWorkflowState)
      → resolve_case tools s case_id d reviewer context ≡ ok s'
      → (was : ReviewCase) × (find_case case_id s.cases ≡ some was)
        × (find_case case_id s'.cases ≡ some (resolved_case s was d reviewer))
        × ((other : String) → other ≢ case_id → find_case other s'.cases ≡ find_case other s.cases)
  find_case-resolve_case s' h =
      let r : Resolved tools s case_id d reviewer context s' = resolve_case-Resolved s' h in
      let same_id : (resolved_case s r.was d reviewer).review_case_id ≡ case_id =
        resolved_case-id s r.was d reviewer ∙ find_case-id case_id s.cases r.was r.found in
      let new : s'.cases ≡ replace_case case_id (resolved_case s r.was d reviewer) s.cases =
        ap (λ w. w.cases) r.recorded ∙ record_decision-cases s case_id r.was d reviewer in
      (
        r.was,
        r.found,
        ap (find_case case_id) new
            ∙ find-replace_self case_id (resolved_case s r.was d reviewer) same_id s.cases r.was
                r.found,
        λ other ne.
            ap (find_case other) new
            ∙ find-replace_ne case_id (resolved_case s r.was d reviewer) same_id other s.cases ne,
      )

-- A second resolution of a case is refused, whatever it decides.
pub resolve_case_final :
    (tools : TextTools) (s : ReviewWorkflowState) (case_id : String) (d again : HumanReviewDecision)
    (reviewer reviewer' : Option String) (context context' : ReviewContext)
    (s' : ReviewWorkflowState)
    → resolve_case tools s case_id d reviewer context ≡ ok s'
    → resolve_case tools s' case_id again reviewer' context' ≡ err invalid_transition
resolve_case_final tools s case_id d again reviewer reviewer' context context' s' h =
    let (was, found, now, others) =
      find_case-resolve_case tools s case_id d reviewer context s' h in
    resolve-settled tools s' case_id again reviewer' context' (resolved_case s was d reviewer) now
      (resolved_case-settled s was d reviewer)
