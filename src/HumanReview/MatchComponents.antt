-- ===== src/HumanReview/MatchComponents.antt =====
-- human_review/constraints.py: `build_human_match_components`.
use ai_data_quality_platform.Base.{
  String, true, false, List, [], ◌∷◌, ◌≡◌, ◌⊎◌, refl, sym, ◌∙◌, inl, inr, contains, text_eq,
  if◌then◌else◌, Result, ok, err, ◌>>=◌, sorted, sorted_texts, contains-sorted_texts,
  contains-sorted, contains_self,
}
use ai_data_quality_platform.Base.Assoc.{Dict, keys}
use ai_data_quality_platform.UnionFind.{singletons}
use ai_data_quality_platform.UnionFind.Partition.{singletons-IsKey}
use ai_data_quality_platform.EntityResolution.Models.{
  EntityRecord, RecordPair, pair_eq, pair_before,
}
use ai_data_quality_platform.EntityResolution.Decisions.{is_empty}
use ai_data_quality_platform.HumanReview.Models.{
  ReviewWorkflowState, resolved_match_pairs, resolved_no_match_pairs,
}
use ai_data_quality_platform.HumanReview.Errors.{HumanReviewError, contradiction, type_error}
use ai_data_quality_platform.HumanReview.Constraints.{merge_matches}
use ai_data_quality_platform.HumanReview.Linked.{Linked-more, Spans-singletons, SameTree-singletons}
use ai_data_quality_platform.HumanReview.Merging.{onto-sorted, Conflict, merge_matches-Decided}
use ai_data_quality_platform.HumanReview.Proposal.{EndsListed}

-- The grouping loop. Its first round builds `{record_id for pair in match_pairs for record_id in pair}`,
-- and a `RecordPair` has no `__iter__`, so that it raises TypeError.
unfoldable pub group_matched : List String → Result HumanReviewError (List (List String))
group_matched [] = ok []
group_matched (member ∷ members) = err type_error

unfoldable pub build_human_match_components :
    ReviewWorkflowState → Dict EntityRecord → Result HumanReviewError (List (List String))
unfolding resolved_match_pairs resolved_no_match_pairs merge_matches group_matched keys singletons
    sorted_texts pair_before
build_human_match_components outcome records =
    if is_empty (resolved_match_pairs outcome)
    then ok []
    else (merge_matches (resolved_no_match_pairs outcome)
          (sorted pair_before (resolved_match_pairs outcome))
          (singletons (sorted_texts (keys records)))
        >>= λ p. group_matched (sorted_texts (keys records)))

group_matched-raises :
    (x : String) (members : List String)
    → contains x members ≡ true
    → group_matched members ≡ err type_error
unfolding group_matched
group_matched-raises x [] h = cc
group_matched-raises x (m ∷ members) h = refl

some_pair :
    (pairs : List RecordPair)
    → is_empty pairs ≡ false
    → (e : RecordPair) × (contains e pairs ≡ true)
some_pair [] h = cc
some_pair (e ∷ pairs) h = (e, contains_self e pairs)

-- Where there is a human MATCH and the records hold both ends of each, the call never returns: it
-- raises a contradiction, and then the MATCH pairs link a NO_MATCH pair, or it raises TypeError.
pub build_human_match_components-raises :
    (outcome : ReviewWorkflowState) (records : Dict EntityRecord)
    → ((e : RecordPair)
        → contains e (resolved_match_pairs outcome) ≡ true
        → EndsListed (keys records) e)
    → is_empty (resolved_match_pairs outcome) ≡ false
    → ((build_human_match_components outcome records ≡ err contradiction)
        × Conflict (resolved_no_match_pairs outcome) (resolved_match_pairs outcome))
      ⊎ (build_human_match_components outcome records ≡ err type_error)
unfolding build_human_match_components
build_human_match_components-raises outcome records listed there_is =
    let nm : List RecordPair = resolved_no_match_pairs outcome in
    let mp : List RecordPair = resolved_match_pairs outcome in
    let members : List String = sorted_texts (keys records) in
    let (first, m) = some_pair mp there_is in
    let raises : group_matched members ≡ err type_error =
      group_matched-raises first.record_a_id members
        (contains-sorted_texts first.record_a_id (keys records) ∙ (listed first m).0) in
    elim (merge_matches-Decided nm (sorted pair_before mp) [] (singletons members)
      (Spans-singletons members)
      (λ n i ne h. ne (SameTree-singletons members n.record_a_id n.record_b_id h))
      (λ e i.
        let (ha, hb) = listed e (sym (contains-sorted pair_before e mp) ∙ i) in
        (
          singletons-IsKey e.record_a_id members
              (contains-sorted_texts e.record_a_id (keys records) ∙ ha),
          singletons-IsKey e.record_b_id members
              (contains-sorted_texts e.record_b_id (keys records) ∙ hb),
        ))) [
          | inl (raised, (n, i, linked)) ↦ inl (
            rw there_is (rw raised refl),
            (n, i, Linked-more (λ e me. sym (onto-sorted e mp) ∙ me) linked),
          )
          | inr (q, returned, s, clear) ↦ inr (rw there_is (rw returned raises))
        ]
