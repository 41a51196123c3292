-- ===== src/EntityResolution/Decisions.antt =====
-- entity_resolution/decisions.py: what a scored comparison becomes.
use ai_data_quality_platform.Base.{
  String, Bool, true, false, not, List, [], ◌∷◌, ◌&&◌, ◌||◌, ◌≡◌, ◌↔◌, arith, if◌then◌else◌,
  contains, text_eq, any, all, filter,
}
use ai_data_quality_platform.Base.Float.{float_ge, float_ge_trans}
use ai_data_quality_platform.EntityResolution.Models.{
  MatchDecisionType, EvidenceType, evidence_value, conflict_value, PairEvidence, PairConflict,
  PairComparison, MatchDecision, EntityResolutionConfig,
}

-- `item.evidence_type in {CITY_EXACT, DISTRICT_EXACT}`
abbrev is_place : EvidenceType → Bool
is_place EvidenceType.city_exact = true
is_place EvidenceType.district_exact = true
is_place _ = false

-- Membership in the set that `fuzzy_only` tests.
abbrev is_fuzzy : EvidenceType → Bool
is_fuzzy EvidenceType.first_name_similarity = true
is_fuzzy EvidenceType.last_name_similarity = true
is_fuzzy EvidenceType.company_similarity = true
is_fuzzy EvidenceType.address_similarity = true
is_fuzzy EvidenceType.city_exact = true
is_fuzzy EvidenceType.district_exact = true
is_fuzzy _ = false

-- `not items`
abbrev pub is_empty {ℓ} : {A : Type ℓ} → List A → Bool
is_empty [] = true
is_empty (x ∷ xs) = false

module _ (config : EntityResolutionConfig) where
  unfoldable pub has_strong_identity_evidence : List PairEvidence → Bool
  unfolding evidence_value
  has_strong_identity_evidence evidence =
      any (λ item. contains (evidence_value item.evidence_type) config.strong_evidence_types)
        evidence

  unfoldable pub is_severe : PairConflict → Bool
  unfolding conflict_value
  is_severe c = contains (conflict_value c.conflict_type) config.severe_conflict_types

  unfoldable pub has_severe_conflict : List PairConflict → Bool
  unfolding is_severe
  has_severe_conflict conflicts = any is_severe conflicts

  -- `item.evidence_type.value not in config.weak_evidence_types and ... not in {...}`
  unfoldable pub is_non_weak : PairEvidence → Bool
  unfolding evidence_value
  is_non_weak item =
      not (contains (evidence_value item.evidence_type) config.weak_evidence_types)
      && not (is_place item.evidence_type)

  unfoldable pub is_weak_only_evidence : List PairEvidence → Bool
  unfolding has_strong_identity_evidence is_non_weak
  is_weak_only_evidence evidence =
      if is_empty evidence
      then true
      else if has_strong_identity_evidence evidence
      then false
      else (all (λ item. is_fuzzy item.evidence_type) evidence
          || is_empty (filter is_non_weak evidence))

  decided : PairComparison → MatchDecisionType → String → MatchDecision
  decided comparison decision reason = record {
    pair = comparison.pair;
    comparison = comparison;
    decision = decision;
    reason = reason;
  }

  -- The tests above the AUTO_MATCH threshold.
  unfoldable pub decide_above_threshold : PairComparison → MatchDecision
  unfolding has_strong_identity_evidence is_weak_only_evidence has_severe_conflict decided
  decide_above_threshold comparison =
      if config.require_strong_identity && not (has_strong_identity_evidence comparison.evidence)
      then decided comparison MatchDecisionType.review
          "Score meets AUTO_MATCH threshold but strong identity evidence is missing."
      else if config.weak_only_forces_review && is_weak_only_evidence comparison.evidence
      then decided comparison MatchDecisionType.review
          "Only weak or fuzzy evidence present; unsafe for AUTO_MATCH."
      else if config.forbid_severe_conflicts && has_severe_conflict comparison.conflicts
      then decided comparison MatchDecisionType.review "Severe conflict blocks AUTO_MATCH."
      else decided comparison MatchDecisionType.auto_match
          "Strong deterministic identity evidence with no blocking conflict."

  unfoldable pub decide_pair_match : PairComparison → MatchDecision
  unfolding has_severe_conflict decide_above_threshold decided float_ge
  decide_pair_match comparison =
      if has_severe_conflict comparison.conflicts
      then (if float_ge comparison.score config.review_threshold
          then decided comparison MatchDecisionType.review
              "Strong identity evidence conflicts with contradictory identifiers."
          else decided comparison MatchDecisionType.no_match
              "Contradictory identity evidence below review threshold.")
      else if float_ge comparison.score config.auto_match_threshold
      then decide_above_threshold comparison
      else if float_ge comparison.score config.review_threshold
      then decided comparison MatchDecisionType.review
          "Plausible duplicate evidence requires human review."
      else decided comparison MatchDecisionType.no_match
          "Insufficient compatible evidence for duplicate match."

  -- What a comparison must show to be matched without a reviewer.
  pub record IsSafeMatch (comparison : PairComparison) : Type 0 where
    pub score_reached : float_ge comparison.score config.auto_match_threshold ≡ true
    pub no_severe_conflict : has_severe_conflict comparison.conflicts ≡ false
    pub strong_identity :
        (not config.require_strong_identity || has_strong_identity_evidence comparison.evidence)
        ≡ true
    pub more_than_weak :
        (not config.weak_only_forces_review || not (is_weak_only_evidence comparison.evidence))
        ≡ true

  -- A comparison is decided AUTO_MATCH exactly where it is a safe match.
  pub decide_pair_match-auto :
      (comparison : PairComparison)
      → ((decide_pair_match comparison).decision ≡ MatchDecisionType.auto_match)
        ↔ IsSafeMatch comparison
  unfolding decide_pair_match decide_above_threshold decided
  decide_pair_match-auto comparison = (
    λ h. record {
      score_reached = ground arith;
      no_severe_conflict = ground arith;
      strong_identity = ground arith;
      more_than_weak = ground arith;
    },
    λ safe. ground (
      arith, safe.score_reached, safe.no_severe_conflict, safe.strong_identity, safe.more_than_weak,
    ),
  )

  -- Where the AUTO_MATCH threshold is at least the review threshold, NO_MATCH is decided exactly of
  -- the scores below the review threshold, whatever the evidence and the conflicts are.
  pub decide_pair_match-no_match :
      (comparison : PairComparison)
      → float_ge config.auto_match_threshold config.review_threshold ≡ true
      → ((decide_pair_match comparison).decision ≡ MatchDecisionType.no_match)
        ↔ (float_ge comparison.score config.review_threshold ≡ false)
  unfolding decide_pair_match decide_above_threshold decided
  decide_pair_match-no_match comparison ordered = (
    λ h. ground arith,
    λ h. ground (
      arith,
      float_ge_trans comparison.score config.auto_match_threshold config.review_threshold,
    ),
  )
