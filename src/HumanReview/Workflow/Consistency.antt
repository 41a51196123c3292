-- ===== src/HumanReview/Workflow/Consistency.antt =====
-- A human MATCH that is recorded links no NO_MATCH pair.
use ai_data_quality_platform.Base.{
  String, Bool, true, false, not, Option, none, some, List, [], ◌∷◌, ◌&&◌, ◌||◌, ok, contains,
  text_eq, ◌≡◌, ◌≢◌, refl, sym, ap, ◌∙◌, ◌⊎◌, inl, inr, arith, Bool-cases, returned-bind, subst,
  any, map, filter, contains-set_of, contains-add,
}
use ai_data_quality_platform.Base.Assoc.{Dict, keys}
use ai_data_quality_platform.EntityResolution.Conflicts.{TextTools}
use ai_data_quality_platform.EntityResolution.Models.{
  RecordPair, pair_eq, pair_beq, ResolutionResult, EntityRecord, EntityResolutionConfig,
}
use ai_data_quality_platform.HumanReview.Models.{
  ReviewStatus, HumanReviewDecision, status_eq, ReviewCase, ReviewWorkflowState, has_resolution,
  pairs_with_status, resolved_match_pairs, resolved_no_match_pairs,
}
use ai_data_quality_platform.HumanReview.Constraints.{
  requested_match_pairs, all_no_match_pairs, assert_human_match_allowed,
}
use ai_data_quality_platform.HumanReview.Authorization.{assert_human_match_authorization_boundary}
use ai_data_quality_platform.HumanReview.Linked.{Linked-more}
use ai_data_quality_platform.HumanReview.Allowed.{Consistent, assert_human_match_allowed-decides}
use ai_data_quality_platform.HumanReview.Workflow.{
  ReviewContext, authorize_in, authorize_with, authorize_decision, resolved_case, replace_case,
  record_decision, resolve_case,
}
use ai_data_quality_platform.HumanReview.Workflow.Transitions.{
  Resolved, resolve_case-Resolved, record_decision-cases,
}

-- Whether a case contributes the pair with the status.
abbrev pub holds : ReviewStatus → RecordPair → ReviewCase → Bool
holds status e c = status_eq c.status status && has_resolution c && pair_beq c.pair e

contains-pairs :
    (status : ReviewStatus) (e : RecordPair) (cases : List ReviewCase)
    → contains e
        (map (λ c. c.pair) (filter (λ c. status_eq c.status status && has_resolution c) cases))
      ≡ any (holds status e) cases
contains-pairs status e [] = refl
contains-pairs status e (c ∷ cases) = ground (arith, contains-pairs status e cases)

pub contains-pairs_with_status :
    (status : ReviewStatus) (e : RecordPair) (cases : List ReviewCase)
    → contains e (pairs_with_status status cases) ≡ any (holds status e) cases
unfolding pairs_with_status
contains-pairs_with_status status e cases =
    contains-set_of e
      (map (λ c. c.pair) (filter (λ c. status_eq c.status status && has_resolution c) cases))
    ∙ contains-pairs status e cases

module _ (case_id : String) (updated : ReviewCase) where
  pub any-replace_case :
      (f : ReviewCase → Bool) (cases : List ReviewCase)
      → any f (replace_case case_id updated cases) ≡ true
      → (f updated ≡ true) ⊎ (any f cases ≡ true)
  unfolding replace_case
  any-replace_case f [] h = cc
  any-replace_case f (c ∷ cases) h = ground (arith, any-replace_case f cases)

pub contains-match_pairs :
    (e : RecordPair) (s : ReviewWorkflowState)
    → contains e (resolved_match_pairs s) ≡ any (holds ReviewStatus.match e) s.cases
unfolding resolved_match_pairs
contains-match_pairs e s = contains-pairs_with_status ReviewStatus.match e s.cases

pub contains-no_match_pairs :
    (e : RecordPair) (s : ReviewWorkflowState)
    → contains e (resolved_no_match_pairs s) ≡ any (holds ReviewStatus.no_match e) s.cases
unfolding resolved_no_match_pairs
contains-no_match_pairs e s = contains-pairs_with_status ReviewStatus.no_match e s.cases

pub contains-requested :
    (e pair : RecordPair) (s : ReviewWorkflowState)
    → contains e (requested_match_pairs pair s none)
      ≡ (contains e (resolved_match_pairs s) || pair_beq pair e)
unfolding requested_match_pairs
contains-requested e pair s = contains-add e pair (resolved_match_pairs s)

module _ (s : ReviewWorkflowState) (case_id : String) (c : ReviewCase)
    (reviewer : Option String) where
  updated_match :
      (e : RecordPair)
      → holds ReviewStatus.match e (resolved_case s c HumanReviewDecision.match reviewer)
        ≡ pair_beq c.pair e
  unfolding resolved_case
  updated_match e = refl

  updated_no_match :
      (e : RecordPair)
      → holds ReviewStatus.no_match e (resolved_case s c HumanReviewDecision.match reviewer) ≡ false
  unfolding resolved_case
  updated_no_match e = refl

  -- The MATCH pairs after a MATCH are among those before it and the case's own.
  match_pairs_after :
      (e : RecordPair)
      → contains e
          (resolved_match_pairs (record_decision s case_id c HumanReviewDecision.match reviewer))
        ≡ true
      → contains e (requested_match_pairs c.pair s none) ≡ true
  match_pairs_after e h =
      let after : any (holds ReviewStatus.match e)
            (replace_case case_id (resolved_case s c HumanReviewDecision.match reviewer) s.cases)
          ≡ true =
        ap (any (holds ReviewStatus.match e))
          (sym (record_decision-cases s case_id c HumanReviewDecision.match reviewer))
        ∙ sym (
            contains-match_pairs e (record_decision s case_id c HumanReviewDecision.match reviewer))
        ∙ h in
      elim (any-replace_case case_id (resolved_case s c HumanReviewDecision.match reviewer)
        (holds ReviewStatus.match e) s.cases after) [
          | inl new ↦
              let own : pair_beq c.pair e ≡ true = sym (updated_match e) ∙ new in
              contains-requested e c.pair s ∙ rw own (ground arith)
          | inr old ↦
              let before : contains e (resolved_match_pairs s) ≡ true =
                contains-match_pairs e s ∙ old in
              contains-requested e c.pair s ∙ rw before
        ]

  -- The NO_MATCH pairs after a MATCH were there before it.
  no_match_pairs_after :
      (n : RecordPair)
      → contains n
          (resolved_no_match_pairs (record_decision s case_id c HumanReviewDecision.match reviewer))
        ≡ true
      → contains n (resolved_no_match_pairs s) ≡ true
  no_match_pairs_after n h =
      let after : any (holds ReviewStatus.no_match n)
            (replace_case case_id (resolved_case s c HumanReviewDecision.match reviewer) s.cases)
          ≡ true =
        ap (any (holds ReviewStatus.no_match n))
          (sym (record_decision-cases s case_id c HumanReviewDecision.match reviewer))
        ∙ sym (
            contains-no_match_pairs n
              (record_decision s case_id c HumanReviewDecision.match reviewer))
        ∙ h in
      elim (any-replace_case case_id (resolved_case s c HumanReviewDecision.match reviewer)
        (holds ReviewStatus.no_match n) s.cases after) [
          | inl new ↦ cc (updated_no_match n)
          | inr old ↦ contains-no_match_pairs n s ∙ old
        ]

-- No NO_MATCH pair of the state is linked by its MATCH pairs.
abbrev pub IsConsistent : ReviewWorkflowState → Type 0
IsConsistent s = Consistent (resolved_no_match_pairs s) (resolved_match_pairs s)

-- Each NO_MATCH pair names two records.
abbrev pub HasProperPairs : ReviewWorkflowState → Type 0
HasProperPairs s =
    (n : RecordPair) → contains n (resolved_no_match_pairs s) ≡ true → n.record_a_id ≢ n.record_b_id

module _ (tools : TextTools) (s : ReviewWorkflowState) (c : ReviewCase) where
  -- The boundary begins with the check of the NO_MATCH pairs.
  boundary-allowed :
      (resolution : ResolutionResult) (records : Dict EntityRecord)
      (config : EntityResolutionConfig)
      → assert_human_match_authorization_boundary tools c.pair s resolution records config none none
        ≡ ok tt
      → assert_human_match_allowed c.pair s none none ≡ ok tt
  unfolding assert_human_match_authorization_boundary
  boundary-allowed resolution records config h =
      (returned-bind (assert_human_match_allowed c.pair s none none) _ h).2

  authorize_in-allowed :
      (resolution : ResolutionResult) (records : Dict EntityRecord)
      (config : EntityResolutionConfig)
      → authorize_in tools s c resolution records config ≡ ok tt
      → assert_human_match_allowed c.pair s none none ≡ ok tt
  unfolding authorize_in
  authorize_in-allowed resolution records config h =
      elim (Bool-cases (
        not (contains c.pair.record_a_id (keys records))
        || not (contains c.pair.record_b_id (keys records)))) [
          | inl missing ↦ cc (missing)
          | inr there ↦ boundary-allowed resolution records config (ground arith)
        ]

  authorize_with-allowed :
      (resolution : Option ResolutionResult) (records : Option (Dict EntityRecord))
      (config : Option EntityResolutionConfig)
      → authorize_with tools s c resolution records config ≡ ok tt
      → assert_human_match_allowed c.pair s none none ≡ ok tt
  unfolding authorize_with
  authorize_with-allowed (some resolution) (some (first ∷ records)) (some config) h =
      authorize_in-allowed resolution (first ∷ records) config h
  authorize_with-allowed _ _ _ h = cc

  pub authorize-allowed :
      (context : ReviewContext)
      → authorize_decision tools s c HumanReviewDecision.match context ≡ ok tt
      → assert_human_match_allowed c.pair s none none ≡ ok tt
  unfolding authorize_decision
  authorize-allowed context h =
      authorize_with-allowed context.resolution context.records_by_id
        context.entity_resolution_config h

-- A check that returned has found the pairs consistent.
pub allowed-Consistent :
    (pair : RecordPair) (s : ReviewWorkflowState)
    → HasProperPairs s
    → assert_human_match_allowed pair s none none ≡ ok tt
    → Consistent (resolved_no_match_pairs s) (requested_match_pairs pair s none)
unfolding all_no_match_pairs
allowed-Consistent pair s proper h =
    elim (assert_human_match_allowed-decides pair s none none proper) [
      | inl (returned, consistent) ↦ consistent
      | inr (raised, conflict) ↦ cc
    ]

-- When a MATCH is recorded, no NO_MATCH pair of two records is linked by the MATCH pairs, the new one
-- among them, whatever they were before.
pub resolve_match-IsConsistent :
    (tools : TextTools) (s : ReviewWorkflowState) (case_id : String) (reviewer : Option String)
    (context : ReviewContext) (s' : ReviewWorkflowState)
    → HasProperPairs s
    → resolve_case tools s case_id HumanReviewDecision.match reviewer context ≡ ok s'
    → IsConsistent s'
resolve_match-IsConsistent tools s case_id reviewer context s' proper h =
    let r : Resolved tools s case_id HumanReviewDecision.match reviewer context s' =
      resolve_case-Resolved tools s case_id HumanReviewDecision.match reviewer context s' h in
    let consistent : Consistent (resolved_no_match_pairs s)
        (requested_match_pairs r.was.pair s none) =
      allowed-Consistent r.was.pair s proper
        (authorize-allowed tools s r.was context r.authorized) in
    subst IsConsistent (sym r.recorded) (λ n m linked.
      consistent n (no_match_pairs_after s case_id r.was reviewer n m)
        (Linked-more (match_pairs_after s case_id r.was reviewer) linked))
