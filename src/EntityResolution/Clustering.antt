-- ===== src/EntityResolution/Clustering.antt =====
-- entity_resolution/clustering.py: `build_entity_clusters`.
pub mod Edges
pub mod Merging
pub mod Linkage
use ai_data_quality_platform.Base.{
  ℕ, ◌+◌, String, Bool, true, false, List, [], ◌∷◌, ◌++◌, ◌&&◌, ◌||◌, ◌==◌, if◌then◌else◌, ltb,
  Result, ok, ◌>>=◌, sorted, sorted_texts, text_eq, length,
}
use Prim.Native.String.{◌++◌ as ◌+++◌}
use ai_data_quality_platform.Base.Assoc.{Dict, keys}
use ai_data_quality_platform.Base.Float.{float_le, float_lt}
use ai_data_quality_platform.Base.Numbers.{zero_padded}
use ai_data_quality_platform.UnionFind.{Parent, Fault, find, singletons, union, members_with_root}
use ai_data_quality_platform.EntityResolution.Models.{
  MatchDecisionType, MatchDecision, EntityRecord, EntityCluster, EntityResolutionConfig, RecordPair,
  pair_before,
}
use ai_data_quality_platform.EntityResolution.Conflicts.{TextTools}
use ai_data_quality_platform.EntityResolution.Decisions.{is_empty}
use ai_data_quality_platform.EntityResolution.Severity.{cluster_conflict}
use ai_data_quality_platform.EntityResolution.Components.{
  Component, ids_of, group_by_root, sorted_components, edges_within,
}

abbrev pub is_auto_match : MatchDecisionType → Bool
is_auto_match MatchDecisionType.auto_match = true
is_auto_match _ = false

-- `auto_edges`
unfoldable pub auto_decisions : List MatchDecision → List MatchDecision
auto_decisions [] = []
auto_decisions (d ∷ decisions) =
    let rest = auto_decisions decisions in if is_auto_match d.decision then d ∷ rest else rest

-- The order of the key `(-score, record_a_id, record_b_id)`: the first elements that are not equal
-- are compared, and `-x < -y` is `y < x`.
unfoldable pub stronger : MatchDecision → MatchDecision → Bool
unfolding float_le float_lt pair_before
stronger d e =
    if float_le d.comparison.score e.comparison.score
      && float_le e.comparison.score d.comparison.score
    then pair_before d.pair e.pair
    else float_lt e.comparison.score d.comparison.score

-- `f"C-{cluster_index:04d}"`
unfoldable pub cluster_id_of : String → ℕ → String
unfolding zero_padded
cluster_id_of prefix index = prefix +++ zero_padded 4 index

module _ (tools : TextTools) (config : EntityResolutionConfig) (records : Dict EntityRecord) where
  -- `config.cluster_conflict_guard` and the test under it.
  unfoldable pub guarded : List String → Result Fault Bool
  unfolding cluster_conflict
  guarded proposed =
      if config.cluster_conflict_guard
      then (cluster_conflict tools config records proposed >>= λ found. ok found.0)
      else ok false

  -- The loop over the AUTO_MATCH decisions: the accepted edges, how many the guard held back, and
  -- the dictionary.
  unfoldable pub merge_auto :
      List String
      → List MatchDecision
      → List RecordPair
      → ℕ
      → Parent
      → Result Fault (List RecordPair × (ℕ × Parent))
  unfolding guarded members_with_root union
  merge_auto members [] accepted held p = ok (accepted, (held, p))
  merge_auto members (d ∷ decisions) accepted held p = find d.pair.record_a_id p >>= λ left.
      find d.pair.record_b_id left.1 >>= λ right.
      if left.0 == right.0
      then merge_auto members decisions (accepted ++ d.pair ∷ []) held right.1
      else (members_with_root find (λ root. root == left.0 || root == right.0) members right.1
          >>= λ proposed. guarded (sorted_texts proposed.0) >>= λ conflicting.
              if conflicting
              then merge_auto members decisions accepted (held + 1) proposed.1
              else (union find d.pair.record_a_id d.pair.record_b_id proposed.1 >>= λ joined.
                  merge_auto members decisions (accepted ++ d.pair ∷ []) held joined.1))

  -- The body of the last loop for a component of two records or more.
  unfoldable pub cluster_of : String → List RecordPair → List String → Result Fault EntityCluster
  unfolding cluster_conflict edges_within
  cluster_of cluster_id edges members = cluster_conflict tools config records members >>= λ found.
      ok (record {
        cluster_id = cluster_id;
        member_record_ids = members;
        auto_match_edges = edges_within members edges;
        has_internal_conflict = found.0;
        conflict_description = found.1;
      })

  -- The last loop. The index counts the components that are passed over, too.
  unfoldable pub clusters_from :
      List RecordPair → ℕ → List Component → Result Fault (List EntityCluster)
  unfolding cluster_of cluster_id_of
  clusters_from edges index [] = ok []
  clusters_from edges index (c ∷ components) =
      if ltb (length (sorted_texts (ids_of c))) 2
      then clusters_from edges (index + 1) components
      else (cluster_of (cluster_id_of "C-" index) edges (sorted_texts (ids_of c)) >>= λ cluster.
          clusters_from edges (index + 1) components >>= λ clusters. ok (cluster ∷ clusters))

  unfoldable pub build_entity_clusters : List MatchDecision → Result Fault (List EntityCluster × ℕ)
  unfolding auto_decisions stronger merge_auto clusters_from group_by_root sorted_components keys
      singletons sorted_texts
  build_entity_clusters decisions =
      let members = sorted_texts (keys records) in
      if is_empty (auto_decisions decisions)
      then ok ([], 0)
      else (merge_auto members (sorted stronger (auto_decisions decisions)) [] 0
            (singletons members)
          >>= λ merged. group_by_root find members merged.1.1 [] >>= λ components.
              clusters_from merged.0 1 (sorted_components components) >>= λ clusters.
              ok (clusters, merged.1.0))
