-- ===== src/HumanReview/Authorization/Boundary.antt =====
-- What the boundary check finds in the component that a MATCH would create.
use ai_data_quality_platform.Base.{
  String, Bool, true, false, Option, none, some, List, [], ◌∷◌, ◌≡◌, ◌≢◌, refl, ap, ◌∙◌, inl, inr,
  arith, contains, text_eq, Result, ok, err, Bool-cases, length, ltb, returned-bind, ok-injective,
  eq_iff, if◌then◌else◌,
}
use ai_data_quality_platform.Base.Assoc.{Dict, keys}
use ai_data_quality_platform.UnionFind.{Fault}
use ai_data_quality_platform.EntityResolution.Models.{
  RecordPair, pair_eq, EntityRecord, EntityResolutionConfig, ResolutionResult,
}
use ai_data_quality_platform.EntityResolution.Conflicts.{TextTools}
use ai_data_quality_platform.EntityResolution.Severity.{cluster_conflict}
use ai_data_quality_platform.HumanReview.Models.{ReviewWorkflowState}
use ai_data_quality_platform.HumanReview.Errors.{
  HumanReviewError, contradiction, authorization, lift,
}
use ai_data_quality_platform.HumanReview.Constraints.{
  blocks, all_no_match_pairs, assert_human_match_allowed,
}
use ai_data_quality_platform.HumanReview.Authorization.{
  projected_review_component_member_ids, check_projected, assert_human_match_authorization_boundary,
}
use ai_data_quality_platform.HumanReview.Proposal.{EndsListed}
use ai_data_quality_platform.HumanReview.Authorization.Projection.{
  Projection, projection, AutoEndsListed, HumanEndsListed,
}

two_members :
    (a b : String) (xs : List String)
    → a ≢ b
    → contains a xs ≡ true
    → contains b xs ≡ true
    → ltb (length xs) 2 ≡ false
two_members a b [] ne ha hb = cc
two_members a b (x ∷ []) ne ha hb = absurd (ne (ground (arith, eq_iff x a, eq_iff x b)))
two_members a b (x ∷ y ∷ xs) ne ha hb = ground arith

-- What a MATCH that passed the boundary would merge.
pub record IsAuthorized (tools : TextTools) (config : EntityResolutionConfig)
    (records : Dict EntityRecord) (outcome : ReviewWorkflowState) (resolution : ResolutionResult)
    (pair : RecordPair) : Type 0 where
  pub component : List String
  pub projects :
      projected_review_component_member_ids pair outcome resolution records (some pair) true
      ≡ ok component
  pub holds_left : contains pair.record_a_id component ≡ true
  pub holds_right : contains pair.record_b_id component ≡ true
  pub apart : blocks component (all_no_match_pairs outcome none) ≡ false
  pub description : Option String
  pub no_conflict : cluster_conflict tools config records component ≡ ok (false, description)

no_error : {e : HumanReviewError} → ◌≡◌ {A = Result HumanReviewError (Unit {0})} (err e) (ok tt) → ⊥
no_error h = cc

lifted : {A : Type 0} (answer : Result Fault A) {a : A} → lift answer ≡ ok a → answer ≡ ok a
lifted (ok b) h = ap ok (ok-injective h)
lifted (err f) h = cc

not_raised :
    (b : Bool)
    → ◌≡◌ {A = Result HumanReviewError (Unit {0})} (if b then err authorization else ok tt) (ok tt)
    → b ≡ false
not_raised true h = cc
not_raised false h = refl

check_projected-passes :
    (tools : TextTools) (config : EntityResolutionConfig) (records : Dict EntityRecord)
    (no_match_pairs : List RecordPair) (component : List String)
    → ltb (length component) 2 ≡ false
    → check_projected tools config records no_match_pairs component ≡ ok tt
    → (blocks component no_match_pairs ≡ false)
      × (description : Option String) × (cluster_conflict tools config records component
          ≡ ok (false, description))
unfolding check_projected
check_projected-passes tools config records no_match_pairs component large h =
    elim (Bool-cases (blocks component no_match_pairs)) [
      | inl blocked ↦ absurd (no_error {e = contradiction} (rw (large, blocked) at h))
      | inr free ↦
          let (found, passed, searched) =
            returned-bind (lift (cluster_conflict tools config records component)) _
              (rw (large, free) at h) in
          let (b, d) = found in
          (
            free,
            d,
            lifted (cluster_conflict tools config records component) searched
                ∙ ap (λ w. ok (w, d)) (not_raised b passed),
          )
    ]

-- Where the records hold both ends of every automatic match, of every human MATCH and of the pair of
-- two records: a pair that passes the boundary has a component that holds both of its records, no
-- NO_MATCH pair and no severe conflict.
pub boundary-IsAuthorized :
    (tools : TextTools) (pair : RecordPair) (outcome : ReviewWorkflowState)
    (resolution : ResolutionResult) (records : Dict EntityRecord) (config : EntityResolutionConfig)
    → AutoEndsListed pair outcome resolution records
    → HumanEndsListed pair outcome resolution records
    → EndsListed (keys records) pair
    → pair.record_a_id ≢ pair.record_b_id
    → assert_human_match_authorization_boundary tools pair outcome resolution records config none
        none
      ≡ ok tt
    → IsAuthorized tools config records outcome resolution pair
unfolding assert_human_match_authorization_boundary
boundary-IsAuthorized tools pair outcome resolution records config autos humans ends ne h =
    let p : Projection pair outcome resolution records =
      projection pair outcome resolution records autos humans ends in
    let (_, rest, allowed) =
      returned-bind (assert_human_match_allowed pair outcome none none) _ h in
    let (free, description, harmless) =
      check_projected-passes tools config records (all_no_match_pairs outcome none) p.component
        (two_members pair.record_a_id pair.record_b_id p.component ne p.holds_left p.holds_right)
        (rw p.projects at rest) in
    record {
      component = p.component;
      projects = p.projects;
      holds_left = p.holds_left;
      holds_right = p.holds_right;
      apart = free;
      description = description;
      no_conflict = harmless;
    }
