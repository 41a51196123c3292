-- ===== src/EntityResolution/Clustering/Linkage.antt =====
-- `build_entity_clusters` returns, and the records of a cluster are linked by AUTO_MATCH pairs.
use ai_data_quality_platform.Base.{
  ℕ, ◌+◌, String, true, false, List, [], ◌∷◌, ◌≡◌, refl, sym, ap, ◌∙◌, inl, inr, contains, text_eq,
  ok, Bool-cases, contains_self, contains_cons, contains-sorted_texts, subst, length, ltb, sorted,
  sorted_texts, map,
}
use ai_data_quality_platform.Base.AllOf.{AllOf, AllOf-sorted, AllOf-weaken}
use ai_data_quality_platform.Base.Assoc.{Dict, keys}
use ai_data_quality_platform.UnionFind.{Parent, find, singletons}
use ai_data_quality_platform.UnionFind.Forest.{Root, Root-IsKey}
use ai_data_quality_platform.UnionFind.Find.{find-IsFinder}
use ai_data_quality_platform.EntityResolution.Models.{
  RecordPair, pair_eq, MatchDecision, EntityRecord, EntityCluster, EntityResolutionConfig,
}
use ai_data_quality_platform.EntityResolution.Conflicts.{TextTools}
use ai_data_quality_platform.EntityResolution.Decisions.{is_empty}
use ai_data_quality_platform.EntityResolution.Severity.Totality.{cluster_conflict-returns}
use ai_data_quality_platform.EntityResolution.Components.{
  Component, ids_of, sorted_components, edges_within,
}
use ai_data_quality_platform.EntityResolution.Grouping.{OneRoot, group_by_root-OneRoot}
use ai_data_quality_platform.EntityResolution.Clustering.{
  auto_decisions, stronger, merge_auto, cluster_of, cluster_id_of, clusters_from,
  build_entity_clusters,
}
use ai_data_quality_platform.HumanReview.Linked.{Linked, Linked-more, Spans, Spans-singletons}
use ai_data_quality_platform.HumanReview.Proposal.{Covers, EndsListed, singletons-Covers}
use ai_data_quality_platform.EntityResolution.Clustering.Merging.{
  Merged, AllListed, merge_auto-Merged,
}

-- A cluster of two records or more, any two of them linked by a chain of the edges.
abbrev pub IsLinkedCluster : List RecordPair → EntityCluster → Type 0
IsLinkedCluster edges cluster =
    (ltb (length cluster.member_record_ids) 2 ≡ false)
    × ((x y : String)
        → contains x cluster.member_record_ids ≡ true
        → contains y cluster.member_record_ids ≡ true
        → Linked edges x y)

-- The pairs that are decided AUTO_MATCH.
abbrev pub matched_pairs : List MatchDecision → List RecordPair
matched_pairs decisions = map (λ d. d.pair) (auto_decisions decisions)

own_pairs :
    (decisions : List MatchDecision)
    → AllOf (λ d. contains d.pair (map (λ w. w.pair) decisions) ≡ true) decisions
own_pairs [] = tt
own_pairs (d ∷ decisions) = (
  contains_self d.pair (map (λ w. w.pair) decisions),
  AllOf-weaken (λ w. contains w.pair (map (λ v. v.pair) decisions) ≡ true)
      (λ w. contains w.pair (d.pair ∷ map (λ v. v.pair) decisions) ≡ true) decisions
      (λ w h. contains_cons w.pair d.pair (map (λ v. v.pair) decisions) h) (own_pairs decisions),
)

AllOf-both :
    {A : Type 0} (P Q : A → Type 0) (xs : List A)
    → AllOf P xs
    → AllOf Q xs
    → AllOf (λ x. P x × Q x) xs
AllOf-both P Q [] h k = tt
AllOf-both P Q (x ∷ xs) (hx, h) (kx, k) = ((hx, kx), AllOf-both P Q xs h k)

module _ (tools : TextTools) (config : EntityResolutionConfig) (records : Dict EntityRecord) where
  module _ (members : List String) (edges accepted : List RecordPair) (p : Parent)
      (known : (x : String) → contains x members ≡ true → contains x (keys records) ≡ true)
      (covers : Covers members p) (spans : Spans accepted p)
      (from_edges : (e : RecordPair) → contains e accepted ≡ true → contains e edges ≡ true) where
    Linked-members :
        (c : Component)
        → OneRoot p c
        → (x y : String) → contains x (sorted_texts (ids_of c)) ≡ true
        → contains y (sorted_texts (ids_of c)) ≡ true
        → Linked edges x y
    Linked-members c (root, way) x y hx hy =
        let wx : Root p x root = way x (sym (contains-sorted_texts x (ids_of c)) ∙ hx) in
        let wy : Root p y root = way y (sym (contains-sorted_texts y (ids_of c)) ∙ hy) in
        Linked-more from_edges (spans.only x y (Root-IsKey wx) (Root-IsKey wy) (root, wx, wy))

    cluster_of-returns :
        (cluster_id : String) (c : Component)
        → OneRoot p c
        → (cluster : EntityCluster) × (cluster_of tools config records cluster_id accepted
              (sorted_texts (ids_of c))
            ≡ ok cluster)
          × (cluster.member_record_ids ≡ sorted_texts (ids_of c))
    unfolding cluster_of
    cluster_of-returns cluster_id c (root, way) =
        let (found, description, returns) =
          cluster_conflict-returns tools config records (sorted_texts (ids_of c)) (λ x h. known x (
            covers.listed x (Root-IsKey (way x (sym (contains-sorted_texts x (ids_of c)) ∙ h))))) in
        (
          record {
            cluster_id = cluster_id;
            member_record_ids = sorted_texts (ids_of c);
            auto_match_edges = edges_within (sorted_texts (ids_of c)) accepted;
            has_internal_conflict = found;
            conflict_description = description;
          },
          rw returns refl,
          refl,
        )

    clusters_from-linked :
        (index : ℕ) (components : List Component)
        → AllOf (OneRoot p) components
        → (clusters : List EntityCluster) × (clusters_from tools config records accepted index
              components
            ≡ ok clusters)
          × AllOf (IsLinkedCluster edges) clusters
    unfolding clusters_from
    clusters_from-linked index [] all = ([], refl, tt)
    clusters_from-linked index (c ∷ components) (one, all) =
        let (clusters, returns, linked) = clusters_from-linked (index + 1) components all in
        elim (Bool-cases (ltb (length (sorted_texts (ids_of c))) 2)) [
          | inl small ↦ (clusters, rw small returns, linked)
          | inr large ↦
              let (cluster, made, ids) = cluster_of-returns (cluster_id_of "C-" index) c one in
              (
                cluster ∷ clusters,
                rw large (rw made (rw returns refl)),
                (
                  (
                    ap (λ w. ltb (length w) 2) ids ∙ large,
                    λ x y hx hy.
                        Linked-members c one x y (subst (λ w. contains x w ≡ true) ids hx)
                          (subst (λ w. contains y w ≡ true) ids hy),
                  ),
                  linked,
                ),
              )
        ]

  -- Where the records hold both ends of every AUTO_MATCH decision, the clusters are built; each has
  -- two records or more, and any two of them are linked by a chain of AUTO_MATCH pairs.
  pub build_entity_clusters-linked :
      (decisions : List MatchDecision)
      → AllOf (λ d. EndsListed (keys records) d.pair) (auto_decisions decisions)
      → (clusters : List EntityCluster) × (held : ℕ) × (build_entity_clusters tools config records
            decisions
          ≡ ok (clusters, held))
        × AllOf (IsLinkedCluster (matched_pairs decisions)) clusters
  unfolding build_entity_clusters AllListed
  build_entity_clusters-linked decisions listed =
      let members : List String = sorted_texts (keys records) in
      let edges : List RecordPair = matched_pairs decisions in
      let known : (x : String) → contains x members ≡ true → contains x (keys records) ≡ true =
        λ x h. sym (contains-sorted_texts x (keys records)) ∙ h in
      elim (Bool-cases (is_empty (auto_decisions decisions))) [
        | inl nothing ↦ ([], 0, rw nothing refl, tt)
        | inr some_edge ↦
            let all : AllListed tools config records members edges known
                (auto_decisions decisions) =
              AllOf-both (λ d. EndsListed members d.pair) (λ d. contains d.pair edges ≡ true)
                (auto_decisions decisions)
                (AllOf-weaken (λ d. EndsListed (keys records) d.pair)
                  (λ d. EndsListed members d.pair) (auto_decisions decisions)
                  (λ d h. (
                    contains-sorted_texts d.pair.record_a_id (keys records) ∙ h.0,
                    contains-sorted_texts d.pair.record_b_id (keys records) ∙ h.1,
                  ))
                  listed)
                (own_pairs (auto_decisions decisions)) in
            let m : Merged tools config records members edges known (
                merge_auto tools config records members (sorted stronger (auto_decisions decisions))
                  [] 0 (singletons members)) =
              merge_auto-Merged tools config records members edges known
                (sorted stronger (auto_decisions decisions)) [] 0 (singletons members)
                (AllOf-sorted (λ d. (EndsListed members d.pair) × (contains d.pair edges ≡ true))
                  stronger (auto_decisions decisions) all)
                (Spans-singletons members) (singletons-Covers members) (λ d h. cc) in
            let (components, groups, one) =
              group_by_root-OneRoot find members m.after find-IsFinder m.spans.forest
                m.covers.stored in
            let (clusters, returns, linked) =
              clusters_from-linked members edges m.accepted m.after known m.covers m.spans
                m.from_edges 1 (sorted_components components) one in
            (clusters, m.held, rw some_edge (rw m.returns (rw groups (rw returns refl))), linked)
      ]
