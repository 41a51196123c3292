-- ===== src/HumanReview/Authorization.antt =====
-- human_review/authorization.py: a human MATCH must not bring a NO_MATCH pair or a severe conflict
-- into the component that it would create.
pub mod Growth
pub mod Projection
pub mod Boundary
use ai_data_quality_platform.Base.{
  String, Bool, true, false, not, Option, none, some, List, [], ◌∷◌, ◌&&◌, ◌==◌, if◌then◌else◌,
  Result, ok, err, ◌>>=◌, add, sorted, sorted_texts, text_eq, length, ltb,
}
use ai_data_quality_platform.Base.Assoc.{Dict, keys}
use ai_data_quality_platform.UnionFind.{
  Parent, Fault, find_halving, singletons, union, component_members, members_with_root,
}
use ai_data_quality_platform.EntityResolution.Models.{
  MatchDecision, EntityRecord, EntityResolutionConfig, ResolutionResult, RecordPair, pair_eq,
  pair_before, pair_beq,
}
use ai_data_quality_platform.EntityResolution.Conflicts.{TextTools}
use ai_data_quality_platform.EntityResolution.Clustering.{is_auto_match}
use ai_data_quality_platform.EntityResolution.Severity.{cluster_conflict}
use ai_data_quality_platform.HumanReview.Models.{
  ReviewWorkflowState, resolved_match_pairs, resolved_no_match_pairs,
}
use ai_data_quality_platform.HumanReview.Errors.{
  HumanReviewError, contradiction, authorization, lift,
}
use ai_data_quality_platform.HumanReview.Constraints.{
  blocks, all_no_match_pairs, assert_human_match_allowed,
}

-- The pairs of the AUTO_MATCH decisions, in order.
unfoldable pub auto_pairs : List MatchDecision → List RecordPair
auto_pairs [] = []
auto_pairs (d ∷ decisions) =
    let rest = auto_pairs decisions in if is_auto_match d.decision then d.pair ∷ rest else rest

-- The loops over the edges: an edge that is not forced and would bring a NO_MATCH pair together is
-- passed over, any other is joined.
unfoldable pub merge_edges :
    List RecordPair
    → List String
    → (RecordPair → Bool)
    → List RecordPair
    → Parent
    → Result Fault Parent
unfolding blocks
merge_edges no_match_pairs members forced [] p = ok p
merge_edges no_match_pairs members forced (e ∷ edges) p =
    component_members find_halving members e.record_a_id e.record_b_id p >>= λ proposed.
    if not (forced e) && blocks proposed.0 no_match_pairs
    then merge_edges no_match_pairs members forced edges proposed.1
    else (union find_halving e.record_a_id e.record_b_id proposed.1 >>= λ joined.
        merge_edges no_match_pairs members forced edges joined.1)

unfoldable pub never_forced : RecordPair → Bool
never_forced e = false

-- `force_additional_match and additional_match_pair is not None and pair == additional_match_pair`
forced_pair : Option RecordPair → Bool → RecordPair → Bool
forced_pair none force e = false
forced_pair (some additional) force e = force && pair_beq e additional

-- `human_edges`
unfoldable pub human_edges : ReviewWorkflowState → Option RecordPair → List RecordPair
unfolding resolved_match_pairs
human_edges outcome none = sorted pair_before (resolved_match_pairs outcome)
human_edges outcome (some additional) =
    sorted pair_before (add additional (sorted pair_before (resolved_match_pairs outcome)))

-- The dictionary after the two loops.
unfoldable pub projected_parent :
    List String
    → ReviewWorkflowState
    → ResolutionResult
    → Option RecordPair
    → Bool
    → Result Fault Parent
unfolding merge_edges auto_pairs never_forced forced_pair human_edges resolved_no_match_pairs
projected_parent members outcome resolution additional force =
    merge_edges (resolved_no_match_pairs outcome) members never_forced
      (auto_pairs resolution.decisions) (singletons members)
    >>= λ p.
        merge_edges (resolved_no_match_pairs outcome) members (forced_pair additional force)
          (human_edges outcome additional) p

-- `projected_review_component_member_ids`; the root is searched before the members are.
unfoldable pub projected_review_component_member_ids :
    RecordPair
    → ReviewWorkflowState
    → ResolutionResult
    → Dict EntityRecord
    → Option RecordPair
    → Bool
    → Result Fault (List String)
unfolding projected_parent keys
projected_review_component_member_ids anchor outcome resolution records additional force =
    let members = sorted_texts (keys records) in
    projected_parent members outcome resolution additional force >>= λ p.
    find_halving anchor.record_a_id p >>= λ anchor_root.
    members_with_root find_halving (λ root. root == anchor_root.0) members anchor_root.1
    >>= λ component. ok (sorted_texts component.0)

module _ (tools : TextTools) where
  -- What follows the projection in `assert_human_match_authorization_boundary`.
  unfoldable pub check_projected :
      EntityResolutionConfig
      → Dict EntityRecord
      → List RecordPair
      → List String
      → Result HumanReviewError (Unit {0})
  unfolding blocks
  check_projected config records no_match_pairs projected =
      if ltb (length projected) 2
      then ok tt
      else if blocks projected no_match_pairs
      then err contradiction
      else (lift (cluster_conflict tools config records projected) >>= λ found.
          if found.0 then err authorization else ok tt)

  unfoldable pub assert_human_match_authorization_boundary :
      RecordPair
      → ReviewWorkflowState
      → ResolutionResult
      → Dict EntityRecord
      → EntityResolutionConfig
      → Option (List RecordPair)
      → Option (List RecordPair)
      → Result HumanReviewError (Unit {0})
  unfolding check_projected projected_review_component_member_ids all_no_match_pairs
  assert_human_match_authorization_boundary pair outcome resolution records config existing_match
        existing_no_match =
      assert_human_match_allowed pair outcome existing_match existing_no_match >>= λ _.
      lift (projected_review_component_member_ids pair outcome resolution records (some pair) true)
      >>= λ projected.
          check_projected config records (all_no_match_pairs outcome existing_no_match) projected
