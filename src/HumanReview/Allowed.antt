-- ===== src/HumanReview/Allowed.antt =====
-- `assert_human_match_allowed` decides: it returns where no NO_MATCH pair is linked by the MATCH
-- pairs, and raises a contradiction where one is.
use ai_data_quality_platform.Base.{
  String, true, false, Option, none, List, [], ◌||◌, ◌≡◌, refl, sym, ap, ◌∙◌, ◌≢◌, ◌⊎◌, inl, inr,
  contains, text_eq, ok, err, ◌>>=◌, Bool-cases, contains-add, sorted, sorted_texts,
}
use ai_data_quality_platform.UnionFind.{Parent, singletons}
use ai_data_quality_platform.EntityResolution.Models.{
  RecordPair, pair_eq, pair_beq, pair_beq_iff, pair_before,
}
use ai_data_quality_platform.HumanReview.Errors.{contradiction}
use ai_data_quality_platform.HumanReview.Models.{ReviewWorkflowState, resolved_match_pairs}
use ai_data_quality_platform.HumanReview.Constraints.{
  merge_matches, record_ids_of, or_pairs, all_no_match_pairs, assert_human_match_allowed,
  requested_match_pairs,
}
use ai_data_quality_platform.HumanReview.Linked.{
  Linked, Linked-more, Spans, SameTree-of_Linked, Linked-IsKey, Spans-singletons,
  SameTree-singletons, forth, same,
}
use ai_data_quality_platform.HumanReview.Guard.{IsClear}
use ai_data_quality_platform.HumanReview.Merging.{
  onto, Conflict, merge_matches-Decided, or_right, onto-sorted, singletons-EndsAreKeys,
}

-- No NO_MATCH pair is linked.
abbrev pub Consistent : List RecordPair → List RecordPair → Type 0
Consistent no_match_pairs edges =
    (n : RecordPair)
    → contains n no_match_pairs ≡ true
    → Linked edges n.record_a_id n.record_b_id
    → ⊥

pub Spans-Consistent :
    (no_match_pairs pairs : List RecordPair) (q : Parent)
    → ((n : RecordPair) → contains n no_match_pairs ≡ true → n.record_a_id ≢ n.record_b_id)
    → Spans (onto (sorted pair_before pairs) []) q
    → IsClear no_match_pairs q
    → Consistent no_match_pairs pairs
Spans-Consistent no_match_pairs pairs q proper s clear n m h =
    let linked : Linked (onto (sorted pair_before pairs) []) n.record_a_id n.record_b_id =
      Linked-more (λ e me. onto-sorted e pairs ∙ me) h in
    clear n m (proper n m) (SameTree-of_Linked s (Linked-IsKey s linked (proper n m)) linked)

module _ (pair : RecordPair) (outcome : ReviewWorkflowState)
    (existing_match_pairs existing_no_match_pairs : Option (List RecordPair)) where
  pub requested-contains :
      contains pair (requested_match_pairs pair outcome existing_match_pairs) ≡ true
  unfolding requested_match_pairs
  requested-contains =
      contains-add pair pair (or_pairs existing_match_pairs (resolved_match_pairs outcome))
      ∙ or_right (contains pair (or_pairs existing_match_pairs (resolved_match_pairs outcome)))
          ((pair_beq_iff pair pair).1 refl)

  assert-refused :
      contains pair (all_no_match_pairs outcome existing_no_match_pairs) ≡ true
      → assert_human_match_allowed pair outcome existing_match_pairs existing_no_match_pairs
        ≡ err contradiction
  unfolding assert_human_match_allowed
  assert-refused h = rw h

  assert-merges :
      contains pair (all_no_match_pairs outcome existing_no_match_pairs) ≡ false
      → assert_human_match_allowed pair outcome existing_match_pairs existing_no_match_pairs ≡ (
          merge_matches
            (all_no_match_pairs outcome existing_no_match_pairs)
            (sorted pair_before (requested_match_pairs pair outcome existing_match_pairs))
            (singletons (
              sorted_texts
                (record_ids_of (requested_match_pairs pair outcome existing_match_pairs))))
          >>= λ _. ok tt)
  unfolding assert_human_match_allowed
  assert-merges h = rw h

-- For NO_MATCH pairs of two different records each: the check returns exactly where the accepted
-- pairs, with the requested one, link no NO_MATCH pair, and else it raises a contradiction.
pub assert_human_match_allowed-decides :
    (pair : RecordPair) (outcome : ReviewWorkflowState)
    (existing_match_pairs existing_no_match_pairs : Option (List RecordPair))
    → ((n : RecordPair)
        → contains n (all_no_match_pairs outcome existing_no_match_pairs) ≡ true
        → n.record_a_id ≢ n.record_b_id)
    → ((assert_human_match_allowed pair outcome existing_match_pairs existing_no_match_pairs
          ≡ ok tt)
        × Consistent
            (all_no_match_pairs outcome existing_no_match_pairs)
            (requested_match_pairs pair outcome existing_match_pairs))
      ⊎ ((assert_human_match_allowed pair outcome existing_match_pairs existing_no_match_pairs
            ≡ err contradiction)
          × Conflict
              (all_no_match_pairs outcome existing_no_match_pairs)
              (requested_match_pairs pair outcome existing_match_pairs))
assert_human_match_allowed-decides pair outcome em en proper =
    let nm : List RecordPair = all_no_match_pairs outcome en in
    let mp : List RecordPair = requested_match_pairs pair outcome em in
    let ids : List String = sorted_texts (record_ids_of mp) in
    elim (Bool-cases (contains pair nm)) [
      | inl refused ↦ inr (
        assert-refused pair outcome em en refused,
        (pair, refused, forth pair (requested-contains pair outcome em en) refl (same refl)),
      )
      | inr free ↦
          elim (merge_matches-Decided nm (sorted pair_before mp) [] (singletons ids)
            (Spans-singletons ids)
            (λ n m ne h. ne (SameTree-singletons ids n.record_a_id n.record_b_id h))
            (singletons-EndsAreKeys mp)) [
              | inl (raised, (n, m, linked)) ↦ inr (
                assert-merges pair outcome em en free ∙ ap (λ a. a >>= λ _. ok tt) raised,
                (n, m, Linked-more (λ e me. sym (onto-sorted e mp) ∙ me) linked),
              )
              | inr (q, returned, s, clear) ↦ inl (
                assert-merges pair outcome em en free ∙ ap (λ a. a >>= λ _. ok tt) returned,
                Spans-Consistent nm mp q proper s clear,
              )
            ]
    ]

-- Where the resolved MATCH pairs already link a NO_MATCH pair, every further MATCH is refused as a
-- contradiction, also one of records that have nothing to do with them.
pub assert_human_match_allowed-inconsistent :
    (pair : RecordPair) (outcome : ReviewWorkflowState)
    → ((n : RecordPair)
        → contains n (all_no_match_pairs outcome none) ≡ true
        → n.record_a_id ≢ n.record_b_id)
    → Conflict (all_no_match_pairs outcome none) (resolved_match_pairs outcome)
    → assert_human_match_allowed pair outcome none none ≡ err contradiction
unfolding requested_match_pairs
assert_human_match_allowed-inconsistent pair outcome proper (n, m, linked) =
    elim (assert_human_match_allowed-decides pair outcome none none proper) [
      | inl (returned, consistent) ↦ absurd (
          consistent n m (
            Linked-more
              (λ e me.
                contains-add e pair (resolved_match_pairs outcome)
                ∙ ap (λ b. b || pair_beq pair e) me)
              linked))
      | inr (raised, _) ↦ raised
    ]
