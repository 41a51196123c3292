-- ===== src/HumanReview/Authorization/Projection.antt =====
-- The projected component holds both records of the pair.
use ai_data_quality_platform.Base.{
  String, Bool, true, some, List, ◌||◌, ◌==◌, ◌≡◌, refl, sym, ap, ◌∙◌, inl, inr, arith, contains,
  text_eq, ok, contains-add, contains-sorted, contains-sorted_texts, subst, sorted, sorted_texts,
  add, or_cases, eq_iff,
}
use ai_data_quality_platform.Base.Assoc.{Dict, keys}
use ai_data_quality_platform.UnionFind.{find_halving, singletons, members_with_root}
use ai_data_quality_platform.UnionFind.Forest.{Root-IsKey, Root-unique, Found}
use ai_data_quality_platform.UnionFind.Halving.{find_halving-IsFinder}
use ai_data_quality_platform.UnionFind.Collect.{Collected, members_with_root-collects}
use ai_data_quality_platform.EntityResolution.Models.{
  RecordPair, pair_eq, pair_beq, pair_beq_iff, pair_before, EntityRecord, ResolutionResult,
}
use ai_data_quality_platform.HumanReview.Models.{
  ReviewWorkflowState, resolved_match_pairs, resolved_no_match_pairs,
}
use ai_data_quality_platform.HumanReview.Authorization.{
  merge_edges, auto_pairs, never_forced, forced_pair, human_edges, projected_parent,
  projected_review_component_member_ids,
}
use ai_data_quality_platform.HumanReview.Proposal.{EndsListed, singletons-Covers}
use ai_data_quality_platform.UnionFind.Partition.{singletons-IsForest}
use ai_data_quality_platform.HumanReview.Authorization.Growth.{Grown, merge_edges-Grown}

-- What the component of the pair is, in the dictionary after both loops.
pub record Projection (pair : RecordPair) (outcome : ReviewWorkflowState)
    (resolution : ResolutionResult) (records : Dict EntityRecord) : Type 0 where
  pub component : List String
  pub projects :
      projected_review_component_member_ids pair outcome resolution records (some pair) true
      ≡ ok component
  pub holds_left : contains pair.record_a_id component ≡ true
  pub holds_right : contains pair.record_b_id component ≡ true

or_right : (a : Bool) {b : Bool} → b ≡ true → (a || b) ≡ true
or_right a h = ground arith

forced_pair_self : (pair : RecordPair) → forced_pair (some pair) true pair ≡ true
unfolding forced_pair
forced_pair_self pair = (pair_beq_iff pair pair).1 refl

human_edges-cases :
    (pair e : RecordPair) (outcome : ReviewWorkflowState)
    → contains e (human_edges outcome (some pair))
      ≡ (contains e (resolved_match_pairs outcome) || pair_beq pair e)
unfolding human_edges
human_edges-cases pair e outcome =
    contains-sorted pair_before e (add pair (sorted pair_before (resolved_match_pairs outcome)))
    ∙ contains-add e pair (sorted pair_before (resolved_match_pairs outcome))
    ∙ ap (λ b. b || pair_beq pair e) (contains-sorted pair_before e (resolved_match_pairs outcome))

module _ (pair : RecordPair) (outcome : ReviewWorkflowState) (resolution : ResolutionResult)
    (records : Dict EntityRecord) where
  abbrev pub AutoEndsListed : Type 0
  AutoEndsListed =
      (e : RecordPair)
      → contains e (auto_pairs resolution.decisions) ≡ true
      → EndsListed (keys records) e

  abbrev pub HumanEndsListed : Type 0
  HumanEndsListed =
      (e : RecordPair)
      → contains e (resolved_match_pairs outcome) ≡ true
      → EndsListed (keys records) e

  listed_sorted :
      (e : RecordPair) → EndsListed (keys records) e → EndsListed (sorted_texts (keys records)) e
  listed_sorted e (ha, hb) = (
    contains-sorted_texts e.record_a_id (keys records) ∙ ha,
    contains-sorted_texts e.record_b_id (keys records) ∙ hb,
  )

  human_listed :
      HumanEndsListed
      → EndsListed (keys records) pair
      → (e : RecordPair) → contains e (human_edges outcome (some pair)) ≡ true
      → EndsListed (sorted_texts (keys records)) e
  human_listed humans ends e h =
      elim (or_cases (contains e (resolved_match_pairs outcome)) (pair_beq pair e)
        (sym (human_edges-cases pair e outcome) ∙ h)) [
          | inl old ↦ listed_sorted e (humans e old)
          | inr new ↦
              subst (EndsListed (sorted_texts (keys records))) ((pair_beq_iff pair e).0 new)
                (listed_sorted pair ends)
        ]

  pub projection :
      AutoEndsListed
      → HumanEndsListed
      → EndsListed (keys records) pair
      → Projection pair outcome resolution records
  unfolding projected_review_component_member_ids projected_parent
  projection autos humans ends =
      let members : List String = sorted_texts (keys records) in
      let nm : List RecordPair = resolved_no_match_pairs outcome in
      let g : Grown members never_forced (auto_pairs resolution.decisions) (singletons members) (
          merge_edges nm members never_forced (auto_pairs resolution.decisions)
            (singletons members)) =
        merge_edges-Grown nm members never_forced (auto_pairs resolution.decisions)
          (singletons members) (λ e h. listed_sorted e (autos e h)) (singletons-IsForest members)
          (singletons-Covers members) in
      let w : Grown members (forced_pair (some pair) true) (human_edges outcome (some pair)) g.after
          (merge_edges nm members (forced_pair (some pair) true) (human_edges outcome (some pair))
            g.after) =
        merge_edges-Grown nm members (forced_pair (some pair) true)
          (human_edges outcome (some pair)) g.after (human_listed humans ends) g.forest g.covers in
      let asked : contains pair (human_edges outcome (some pair)) ≡ true =
        human_edges-cases pair pair outcome
        ∙ or_right (contains pair (resolved_match_pairs outcome))
            ((pair_beq_iff pair pair).1 refl) in
      let (root, way_a, way_b) = w.joins pair asked (forced_pair_self pair) in
      let anchor : Found w.after pair.record_a_id (find_halving pair.record_a_id w.after) =
        find_halving-IsFinder.finds pair.record_a_id w.after w.forest (Root-IsKey way_a) in
      let same_root : root ≡ anchor.root = Root-unique way_a anchor.way in
      let c : Collected (λ r. r == anchor.root) members anchor.after
          (members_with_root find_halving (λ r. r == anchor.root) members anchor.after) =
        members_with_root-collects find_halving find_halving-IsFinder (λ r. r == anchor.root)
          members anchor.after anchor.refines.forest
          (λ m h. rw anchor.refines.same_keys (w.covers.stored m h)) in
      let (ha, hb) = listed_sorted pair ends in
      let wanted : (root == anchor.root) ≡ true = (eq_iff root anchor.root).1 same_root in
      record {
        component = sorted_texts c.members;
        projects = rw g.returns (rw w.returns (rw anchor.returns (rw c.returns refl)));
        holds_left =
            contains-sorted_texts pair.record_a_id c.members
            ∙ c.exact pair.record_a_id root ha (anchor.refines.roots pair.record_a_id root way_a)
            ∙ wanted;
        holds_right =
            contains-sorted_texts pair.record_b_id c.members
            ∙ c.exact pair.record_b_id root hb (anchor.refines.roots pair.record_b_id root way_b)
            ∙ wanted;
      }
