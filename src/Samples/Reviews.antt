-- ===== src/Samples/Reviews.antt =====
-- Runs of the review workflow: three records, two pending cases and a recorded NO_MATCH.
use ai_data_quality_platform.Samples.Data.{plain_tools, config, records, case_of}
use ai_data_quality_platform.Base.{
  String, true, [], ◌∷◌, ◌≡◌, ◌≢◌, refl, ◌⊎◌, arith, none, some, ok, err, contains, text_eq,
  text_lt, eq_iff, sorted_texts,
}
use ai_data_quality_platform.EntityResolution.Models.{RecordPair, pair_eq, pair_before}
use ai_data_quality_platform.EntityResolution.Severity.{cluster_conflict}
use ai_data_quality_platform.UnionFind.{
  find, find_halving, singletons, union, members_of, component_members,
}
use ai_data_quality_platform.HumanReview.Models.{
  HumanReviewDecision, ReviewCase, ReviewWorkflowState, find_case, resolved_no_match_pairs,
  resolved_match_pairs,
}
use ai_data_quality_platform.HumanReview.Errors.{invalid_transition, contradiction}
use ai_data_quality_platform.HumanReview.Constraints.{
  assert_human_match_allowed, requested_match_pairs, all_no_match_pairs,
}
use ai_data_quality_platform.HumanReview.Authorization.{assert_human_match_authorization_boundary}
use ai_data_quality_platform.HumanReview.Allowed.{
  Consistent, assert_human_match_allowed-decides, assert_human_match_allowed-inconsistent,
}
use ai_data_quality_platform.HumanReview.Linked.{Linked, forth, same}
use ai_data_quality_platform.HumanReview.Merging.{Conflict}
use ai_data_quality_platform.HumanReview.Workflow.{
  ReviewContext, resolve_case, record_decision, resolved_case,
}
use ai_data_quality_platform.HumanReview.Workflow.Invariant.{IsValid}
use ai_data_quality_platform.HumanReview.Workflow.Transitions.{
  resolve_case-IsValid, resolve_case_final, find_case-resolve_case,
}
use ai_data_quality_platform.HumanReview.Workflow.Consistency.{
  IsConsistent, HasProperPairs, resolve_match-IsConsistent,
}

abbrev opened : ReviewWorkflowState
opened = record {
  cases = case_of "RC-1" "a" "b" ∷ case_of "RC-2" "b" "c" ∷ case_of "RC-3" "a" "c" ∷ [];
  audit_trail = [];
  next_resolution_sequence = 1;
}

abbrev context : ReviewContext
context = record {
  resolution = some (record { decisions = []; review_queue = [] });
  records_by_id = some records;
  entity_resolution_config = some config;
}

abbrev matched : ReviewWorkflowState
matched = record_decision opened "RC-1" (case_of "RC-1" "a" "b") HumanReviewDecision.match none

match_resolves :
    resolve_case plain_tools opened "RC-1" HumanReviewDecision.match none context ≡ ok matched
unfolding resolve_case assert_human_match_authorization_boundary assert_human_match_allowed
    members_of find singletons sorted_texts text_lt union component_members find_halving
    cluster_conflict
match_resolves = refl

opened-IsValid : IsValid opened
opened-IsValid = record {
  agree = (refl, (refl, (refl, tt)));
  distinct = (refl, (refl, (refl, tt)));
  numbered = tt;
  next = refl;
  accounted = refl;
  entered = (tt, (tt, (tt, tt)));
}

opened-HasProperPairs : HasProperPairs opened
unfolding resolved_no_match_pairs
opened-HasProperPairs n m = cc

resolve_case-IsValid_example : IsValid matched
resolve_case-IsValid_example =
    resolve_case-IsValid plain_tools opened "RC-1" HumanReviewDecision.match none context matched
      opened-IsValid match_resolves

resolve_case_final_example :
    resolve_case plain_tools matched "RC-1" HumanReviewDecision.no_match none context
    ≡ err invalid_transition
resolve_case_final_example =
    resolve_case_final plain_tools opened "RC-1" HumanReviewDecision.match
      HumanReviewDecision.no_match none none context context matched match_resolves

find_case-resolve_case_example :
    (was : ReviewCase) × (find_case "RC-1" opened.cases ≡ some was)
    × (find_case "RC-1" matched.cases
        ≡ some (resolved_case opened was HumanReviewDecision.match none))
    × ((other : String)
        → other ≢ "RC-1"
        → find_case other matched.cases ≡ find_case other opened.cases)
find_case-resolve_case_example =
    find_case-resolve_case plain_tools opened "RC-1" HumanReviewDecision.match none context matched
      match_resolves

resolve_match-IsConsistent_example : IsConsistent matched
resolve_match-IsConsistent_example =
    resolve_match-IsConsistent plain_tools opened "RC-1" none context matched opened-HasProperPairs
      match_resolves

abbrev pair_bc : RecordPair
pair_bc = record { record_a_id = "b"; record_b_id = "c" }

abbrev pair_ac : RecordPair
pair_ac = record { record_a_id = "a"; record_b_id = "c" }

proper_ac :
    (n : RecordPair)
    → contains n (all_no_match_pairs matched (some (pair_ac ∷ []))) ≡ true
    → n.record_a_id ≢ n.record_b_id
unfolding all_no_match_pairs record_decision
proper_ac n m e = ground (arith, eq_iff "a" n.record_a_id, eq_iff "c" n.record_b_id, eq_iff "a" "c")

-- "a" and "b" are matched and "a" and "c" are not to be: a MATCH of "b" and "c" is refused.
transitive_refusal :
    assert_human_match_allowed pair_bc matched none (some (pair_ac ∷ [])) ≡ err contradiction
unfolding assert_human_match_allowed members_of find singletons sorted_texts text_lt union
    record_decision pair_before
transitive_refusal = refl

assert_human_match_allowed-decides_example :
    ((assert_human_match_allowed pair_bc matched none (some (pair_ac ∷ [])) ≡ ok tt)
      × Consistent
          (all_no_match_pairs matched (some (pair_ac ∷ [])))
          (requested_match_pairs pair_bc matched none))
    ⊎ ((assert_human_match_allowed pair_bc matched none (some (pair_ac ∷ [])) ≡ err contradiction)
        × Conflict
            (all_no_match_pairs matched (some (pair_ac ∷ [])))
            (requested_match_pairs pair_bc matched none))
assert_human_match_allowed-decides_example =
    assert_human_match_allowed-decides pair_bc matched none (some (pair_ac ∷ [])) proper_ac

-- Two MATCH decisions link "a" and "c"; the NO_MATCH of these two is recorded all the same.
abbrev linked_twice : ReviewWorkflowState
linked_twice =
    record_decision matched "RC-2" (case_of "RC-2" "b" "c") HumanReviewDecision.match none

abbrev contradictory : ReviewWorkflowState
contradictory =
    record_decision linked_twice "RC-3" (case_of "RC-3" "a" "c") HumanReviewDecision.no_match none

contradiction_recorded :
    resolve_case plain_tools linked_twice "RC-3" HumanReviewDecision.no_match none context
    ≡ ok contradictory
unfolding resolve_case record_decision
contradiction_recorded = refl

contradictory-Conflict :
    Conflict (all_no_match_pairs contradictory none) (resolved_match_pairs contradictory)
unfolding all_no_match_pairs record_decision resolved_match_pairs
contradictory-Conflict = (
  pair_ac,
  refl,
  forth (record { record_a_id = "a"; record_b_id = "b" }) refl refl
      (forth pair_bc refl refl (same refl)),
)

contradictory-proper :
    (n : RecordPair)
    → contains n (all_no_match_pairs contradictory none) ≡ true
    → n.record_a_id ≢ n.record_b_id
unfolding all_no_match_pairs record_decision
contradictory-proper n m e =
    ground (arith, eq_iff "a" n.record_a_id, eq_iff "c" n.record_b_id, eq_iff "a" "c")

assert_human_match_allowed-inconsistent_example :
    assert_human_match_allowed
      (record { record_a_id = "d"; record_b_id = "e" })
      contradictory
      none
      none
    ≡ err contradiction
assert_human_match_allowed-inconsistent_example =
    assert_human_match_allowed-inconsistent (record { record_a_id = "d"; record_b_id = "e" })
      contradictory contradictory-proper contradictory-Conflict
