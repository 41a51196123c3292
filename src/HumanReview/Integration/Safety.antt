-- ===== src/HumanReview/Integration/Safety.antt =====
-- `build_review_aware_clusters` with an outcome returns clusters that respect the NO_MATCH decisions.
use ai_data_quality_platform.Base.{
  ℕ, ◌+◌, String, true, some, List, [], ◌∷◌, ◌≡◌, ◌≢◌, refl, sym, ◌∙◌, inl, inr, contains, text_eq,
  ok, Bool-cases, length, ltb, sorted, sorted_texts, contains-sorted_texts, contains-sorted,
}
use ai_data_quality_platform.Base.AllOf.{AllOf, AllOf-weaken}
use ai_data_quality_platform.Base.Assoc.{Dict, keys}
use ai_data_quality_platform.UnionFind.{Parent, find_halving, singletons}
use ai_data_quality_platform.UnionFind.Forest.{Root, Root-IsKey}
use ai_data_quality_platform.UnionFind.Halving.{find_halving-IsFinder}
use ai_data_quality_platform.UnionFind.Partition.{singletons-IsForest}
use ai_data_quality_platform.EntityResolution.Models.{
  RecordPair, pair_eq, pair_before, EntityRecord, EntityCluster, EntityResolutionConfig,
  ResolutionResult,
}
use ai_data_quality_platform.EntityResolution.Conflicts.{TextTools}
use ai_data_quality_platform.EntityResolution.Severity.Totality.{cluster_conflict-returns}
use ai_data_quality_platform.EntityResolution.Decisions.{is_empty}
use ai_data_quality_platform.EntityResolution.Components.{
  Component, ids_of, sorted_components, edges_within,
}
use ai_data_quality_platform.EntityResolution.Grouping.{OneRoot, group_by_root-OneRoot}
use ai_data_quality_platform.EntityResolution.Clustering.{is_auto_match, cluster_of, cluster_id_of}
use ai_data_quality_platform.HumanReview.Models.{
  ReviewWorkflowState, resolved_match_pairs, resolved_no_match_pairs,
}
use ai_data_quality_platform.HumanReview.Integration.{
  review_clusters_from, reviewed_clusters, build_review_aware_clusters,
}
use ai_data_quality_platform.HumanReview.Integration.Separation.{
  Apart, merge_edges-Apart, join_auto-Apart,
}
use ai_data_quality_platform.HumanReview.Proposal.{EndsListed, singletons-Covers}
use ai_data_quality_platform.HumanReview.Linked.{SameTree-singletons}

-- No NO_MATCH pair of two records has both of them in the cluster.
abbrev pub KeepsApart : List RecordPair → EntityCluster → Type 0
KeepsApart no_match_pairs cluster =
    (n : RecordPair)
    → contains n no_match_pairs ≡ true
    → n.record_a_id ≢ n.record_b_id
    → contains n.record_a_id cluster.member_record_ids ≡ true
    → contains n.record_b_id cluster.member_record_ids ≡ true
    → ⊥

module _ (tools : TextTools) (config : EntityResolutionConfig) (records : Dict EntityRecord) where
  Made : List RecordPair → List RecordPair → String → Component → Type 0
  Made no_match_pairs edges cluster_id c =
      (cluster : EntityCluster) × (cluster_of tools config records cluster_id edges
          (sorted_texts (ids_of c))
        ≡ ok cluster)
      × KeepsApart no_match_pairs cluster

  module _ (no_match_pairs : List RecordPair) (members : List String) (p : Parent)
      (known : (x : String) → contains x members ≡ true → contains x (keys records) ≡ true)
      (apart : Apart no_match_pairs members p) where
    make :
        (edges : List RecordPair) (cluster_id : String) (c : Component)
        → OneRoot p c
        → Made no_match_pairs edges cluster_id c
    unfolding cluster_of Made
    make edges cluster_id c (root, way) =
        let at : (x : String) → contains x (sorted_texts (ids_of c)) ≡ true → Root p x root =
          λ x h. way x (sym (contains-sorted_texts x (ids_of c)) ∙ h) in
        let (found, description, returns) =
          cluster_conflict-returns tools config records (sorted_texts (ids_of c))
            (λ x h. known x (apart.covers.listed x (Root-IsKey (at x h)))) in
        (
          record {
            cluster_id = cluster_id;
            member_record_ids = sorted_texts (ids_of c);
            auto_match_edges = edges_within (sorted_texts (ids_of c)) edges;
            has_internal_conflict = found;
            conflict_description = description;
          },
          rw returns refl,
          λ n m ne ha hb. apart.clear n m ne (root, at n.record_a_id ha, at n.record_b_id hb),
        )

    clusters-KeepsApart :
        (auto_edges human_edges : List RecordPair) (auto_index human_index : ℕ)
        (components : List Component)
        → AllOf (OneRoot p) components
        → (clusters : List EntityCluster) × (review_clusters_from tools config records auto_edges
              human_edges auto_index human_index components
            ≡ ok clusters)
          × AllOf (KeepsApart no_match_pairs) clusters
    unfolding review_clusters_from Made
    clusters-KeepsApart auto_edges human_edges i j [] all = ([], refl, tt)
    clusters-KeepsApart auto_edges human_edges i j (c ∷ components) (one, all) =
        elim (Bool-cases (ltb (length (sorted_texts (ids_of c))) 2)) [
          | inl small ↦
              let (clusters, returns, apart_all) =
                clusters-KeepsApart auto_edges human_edges i j components all in
              (clusters, rw small returns, apart_all)
          | inr large ↦
              elim (Bool-cases (is_empty (edges_within (sorted_texts (ids_of c)) auto_edges))) [
                | inr automatic ↦
                    let (cluster, made, keeps) =
                      make auto_edges (cluster_id_of "C-" (i + 1)) c one in
                    let (clusters, returns, apart_all) =
                      clusters-KeepsApart auto_edges human_edges (i + 1) j components all in
                    (
                      cluster ∷ clusters,
                      rw large (rw automatic (rw made (rw returns refl))),
                      (keeps, apart_all),
                    )
                | inl no_auto ↦
                    elim (Bool-cases
                      (is_empty (edges_within (sorted_texts (ids_of c)) human_edges))) [
                        | inr human ↦
                            let (cluster, made, keeps) =
                              make auto_edges (cluster_id_of "HR-" (j + 1)) c one in
                            let (clusters, returns, apart_all) =
                              clusters-KeepsApart auto_edges human_edges i (j + 1) components all in
                            (
                              cluster ∷ clusters,
                              rw large (rw no_auto (rw human (rw made (rw returns refl)))),
                              (keeps, apart_all),
                            )
                        | inl neither ↦
                            let (clusters, returns, apart_all) =
                              clusters-KeepsApart auto_edges human_edges i j components all in
                            (clusters, rw large (rw no_auto (rw neither returns)), apart_all)
                      ]
              ]
        ]

  EndsListed-sorted_one :
      (e : RecordPair) → EndsListed (keys records) e → EndsListed (sorted_texts (keys records)) e
  EndsListed-sorted_one e (ha, hb) = (
    contains-sorted_texts e.record_a_id (keys records) ∙ ha,
    contains-sorted_texts e.record_b_id (keys records) ∙ hb,
  )

  singletons-Apart :
      (no_match_pairs : List RecordPair) (members : List String)
      → Apart no_match_pairs members (singletons members)
  singletons-Apart no_match_pairs members = record {
    forest = singletons-IsForest members;
    covers = singletons-Covers members;
    clear = λ n m ne h. ne (SameTree-singletons members n.record_a_id n.record_b_id h);
  }

  -- Where the records hold both ends of every AUTO_MATCH decision and of every human MATCH, the
  -- clusters are built, and no cluster holds both records of a human NO_MATCH.
  pub build_review_aware_clusters-KeepsApart :
      (resolution : ResolutionResult) (outcome : ReviewWorkflowState)
      → AllOf
          (λ d. (is_auto_match d.decision ≡ true → EndsListed (keys records) d.pair))
          resolution.decisions
      → ((e : RecordPair)
          → contains e (resolved_match_pairs outcome) ≡ true
          → EndsListed (keys records) e)
      → (clusters : List EntityCluster) × (build_review_aware_clusters tools config records
            resolution
            (some outcome)
          ≡ ok clusters)
        × AllOf (KeepsApart (resolved_no_match_pairs outcome)) clusters
  unfolding build_review_aware_clusters reviewed_clusters
  build_review_aware_clusters-KeepsApart resolution outcome auto_listed human_listed =
      let nm : List RecordPair = resolved_no_match_pairs outcome in
      let members : List String = sorted_texts (keys records) in
      let human_edges : List RecordPair = sorted pair_before (resolved_match_pairs outcome) in
      let known : (x : String) → contains x members ≡ true → contains x (keys records) ≡ true =
        λ x h. sym (contains-sorted_texts x (keys records)) ∙ h in
      let (auto_edges, p, joins, apart_p) =
        join_auto-Apart nm members tools config records known resolution.decisions []
          (singletons members)
          (AllOf-weaken (λ d. (is_auto_match d.decision ≡ true → EndsListed (keys records) d.pair))
            (λ d. (is_auto_match d.decision ≡ true → EndsListed members d.pair))
            resolution.decisions (λ d h auto. EndsListed-sorted_one d.pair (h auto)) auto_listed)
          (singletons-Apart nm members) in
      let (q, merges, apart_q) =
        merge_edges-Apart nm members human_edges p
          (λ e h. EndsListed-sorted_one e (
            human_listed e
              (sym (contains-sorted pair_before e (resolved_match_pairs outcome)) ∙ h)))
          apart_p in
      let (components, groups, one) =
        group_by_root-OneRoot find_halving members q find_halving-IsFinder apart_q.forest
          apart_q.covers.stored in
      let (clusters, returns, keeps) =
        clusters-KeepsApart nm members q known apart_q auto_edges human_edges 0 0
          (sorted_components components) one in
      (clusters, rw joins (rw merges (rw groups returns)), keeps)
