-- ===== src/HumanReview/Constraints.antt =====
-- human_review/constraints.py: human NO_MATCH decisions constrain human MATCH decisions.
use ai_data_quality_platform.Base.{
  String, Bool, Option, none, some, List, [], ◌∷◌, ◌&&◌, if◌then◌else◌, Result, ok, err, ◌>>=◌,
  contains, add, union_all, sorted, sorted_texts, text_eq, any,
}
use ai_data_quality_platform.UnionFind.{Parent, find, singletons, union, members_of}
use ai_data_quality_platform.EntityResolution.Models.{RecordPair, pair_eq, pair_before}
use ai_data_quality_platform.HumanReview.Models.{
  ReviewWorkflowState, resolved_match_pairs, resolved_no_match_pairs,
}
use ai_data_quality_platform.HumanReview.Errors.{HumanReviewError, contradiction, lift}

-- `any(pair.record_a_id in proposed and pair.record_b_id in proposed for pair in no_match_pairs)`
unfoldable pub blocks : List String → List RecordPair → Bool
blocks proposed no_match_pairs =
    any (λ p. contains p.record_a_id proposed && contains p.record_b_id proposed) no_match_pairs

-- `_no_match_blocks_merge`
unfoldable pub no_match_blocks_merge : List String → List String → List RecordPair → Bool
unfolding blocks
no_match_blocks_merge left right no_match_pairs = blocks (union_all left right) no_match_pairs

-- The set comprehension over the two ids of every pair.
unfoldable pub record_ids_of : List RecordPair → List String
record_ids_of [] = []
record_ids_of (p ∷ pairs) = add p.record_a_id (add p.record_b_id (record_ids_of pairs))

-- The loop over the MATCH pairs: a pair whose merge is blocked raises, any other is merged.
unfoldable pub merge_matches :
    List RecordPair → List RecordPair → Parent → Result HumanReviewError Parent
unfolding no_match_blocks_merge
merge_matches no_match_pairs [] p = ok p
merge_matches no_match_pairs (matched ∷ rest) p =
    lift (members_of find matched.record_a_id p) >>= λ left.
    lift (members_of find matched.record_b_id left.1) >>= λ right.
    if no_match_blocks_merge left.0 right.0 no_match_pairs
    then err contradiction
    else (lift (union find matched.record_a_id matched.record_b_id right.1) >>= λ joined.
        merge_matches no_match_pairs rest joined.1)

-- `existing or default`, `existing` being None or a frozenset.
abbrev pub or_pairs : Option (List RecordPair) → List RecordPair → List RecordPair
or_pairs none other = other
or_pairs (some []) other = other
or_pairs (some (p ∷ pairs)) other = p ∷ pairs

-- The NO_MATCH pairs of the outcome, with those that the caller adds.
unfoldable pub all_no_match_pairs : ReviewWorkflowState → Option (List RecordPair) → List RecordPair
unfolding resolved_no_match_pairs
all_no_match_pairs outcome none = resolved_no_match_pairs outcome
all_no_match_pairs outcome (some pairs) = union_all (resolved_no_match_pairs outcome) pairs

-- `match_pairs`: the accepted pairs with the one that is asked for.
unfoldable pub requested_match_pairs :
    RecordPair → ReviewWorkflowState → Option (List RecordPair) → List RecordPair
unfolding resolved_match_pairs
requested_match_pairs pair outcome existing =
    add pair (or_pairs existing (resolved_match_pairs outcome))

unfoldable pub assert_human_match_allowed :
    RecordPair
    → ReviewWorkflowState
    → Option (List RecordPair)
    → Option (List RecordPair)
    → Result HumanReviewError (Unit {0})
unfolding all_no_match_pairs merge_matches record_ids_of requested_match_pairs
assert_human_match_allowed pair outcome existing_match_pairs existing_no_match_pairs =
    let no_match_pairs = all_no_match_pairs outcome existing_no_match_pairs in
    let match_pairs = requested_match_pairs pair outcome existing_match_pairs in
    if contains pair no_match_pairs
    then err contradiction
    else (merge_matches no_match_pairs (sorted pair_before match_pairs)
          (singletons (sorted_texts (record_ids_of match_pairs)))
        >>= λ _. ok tt)
