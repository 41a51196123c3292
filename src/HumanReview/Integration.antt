-- ===== src/HumanReview/Integration.antt =====
-- human_review/integration.py: the clusters that respect the human decisions.
pub mod Separation
pub mod Safety
pub mod Exclusion
use ai_data_quality_platform.Base.{
  ℕ, ◌+◌, String, Bool, true, false, not, Option, none, some, List, [], ◌∷◌, ◌++◌, ◌&&◌, ◌||◌,
  if◌then◌else◌, ltb, Result, ok, ◌>>=◌, add, sorted, sorted_texts, text_eq, length,
}
use ai_data_quality_platform.Base.Assoc.{Dict, keys}
use ai_data_quality_platform.UnionFind.{
  Parent, Fault, find_halving, singletons, union, component_members,
}
use ai_data_quality_platform.EntityResolution.Models.{
  MatchDecision, EntityRecord, EntityCluster, EntityResolutionConfig, ResolutionResult, ReviewItem,
  RecordPair, pair_beq, pair_before,
}
use ai_data_quality_platform.EntityResolution.Conflicts.{TextTools}
use ai_data_quality_platform.EntityResolution.Decisions.{is_empty}
use ai_data_quality_platform.EntityResolution.Components.{
  Component, ids_of, group_by_root, sorted_components, edges_within,
}
use ai_data_quality_platform.EntityResolution.Clustering.{
  is_auto_match, guarded, cluster_of, cluster_id_of, build_entity_clusters,
}
use ai_data_quality_platform.HumanReview.Models.{
  ReviewStatus, ReviewCase, ReviewWorkflowState, resolved_match_pairs, resolved_no_match_pairs,
}
use ai_data_quality_platform.HumanReview.Constraints.{blocks}
use ai_data_quality_platform.HumanReview.Authorization.{merge_edges, never_forced}

-- `resolved_pairs.get(pair, PENDING)`: the last case of a pair sets its status.
unfoldable pub status_of_pair : RecordPair → List ReviewCase → ReviewStatus → ReviewStatus
status_of_pair pair [] status = status
status_of_pair pair (c ∷ cases) status =
    status_of_pair pair cases (if pair_beq c.pair pair then c.status else status)

-- `status in {PENDING, DEFERRED}`
abbrev pub is_open : ReviewStatus → Bool
is_open ReviewStatus.pending = true
is_open ReviewStatus.deferred = true
is_open _ = false

abbrev pub cases_of : Option ReviewWorkflowState → List ReviewCase
cases_of none = []
cases_of (some outcome) = outcome.cases

exclude_open : List ReviewCase → List ReviewItem → List String → List String
unfolding status_of_pair
exclude_open cases [] excluded = excluded
exclude_open cases (item ∷ queue) excluded = exclude_open cases queue (
    if is_open (status_of_pair item.pair cases ReviewStatus.pending)
    then add item.pair.record_b_id (add item.pair.record_a_id excluded)
    else excluded)

unfoldable pub review_excluded_record_ids :
    ResolutionResult → Option ReviewWorkflowState → List String
unfolding exclude_open
review_excluded_record_ids resolution outcome =
    exclude_open (cases_of outcome) resolution.review_queue []

module _ (tools : TextTools) (config : EntityResolutionConfig) (records : Dict EntityRecord) where
  -- The two tests before an automatic edge is joined.
  unfoldable pub held_back : List RecordPair → List String → Result Fault Bool
  unfolding blocks guarded
  held_back no_match_pairs proposed =
      if blocks proposed no_match_pairs
      then ok true
      else guarded tools config records (sorted_texts proposed)

  -- The loop over `resolution.decisions`: the automatic edges that are joined, and the dictionary.
  unfoldable pub join_auto :
      List RecordPair
      → List String
      → List MatchDecision
      → List RecordPair
      → Parent
      → Result Fault (List RecordPair × Parent)
  unfolding component_members held_back union
  join_auto no_match_pairs members [] accepted p = ok (accepted, p)
  join_auto no_match_pairs members (d ∷ decisions) accepted p =
      if not (is_auto_match d.decision)
      then join_auto no_match_pairs members decisions accepted p
      else (component_members find_halving members d.pair.record_a_id d.pair.record_b_id p
          >>= λ proposed. held_back no_match_pairs proposed.0 >>= λ held.
              if held
              then join_auto no_match_pairs members decisions accepted proposed.1
              else (union find_halving d.pair.record_a_id d.pair.record_b_id proposed.1
                  >>= λ joined.
                      join_auto no_match_pairs members decisions (accepted ++ d.pair ∷ [])
                        joined.1))

  -- The last loop, with the counters of the two kinds of cluster.
  unfoldable pub review_clusters_from :
      List RecordPair → List RecordPair → ℕ → ℕ → List Component → Result Fault (List EntityCluster)
  unfolding cluster_of cluster_id_of edges_within
  review_clusters_from auto_edges human_edges auto_index human_index [] = ok []
  review_clusters_from auto_edges human_edges auto_index human_index (c ∷ components) =
      let members = sorted_texts (ids_of c) in
      if ltb (length members) 2
      then review_clusters_from auto_edges human_edges auto_index human_index components
      else if not (is_empty (edges_within members auto_edges))
      then (cluster_of tools config records (cluster_id_of "C-" (auto_index + 1)) auto_edges members
          >>= λ cluster.
              review_clusters_from auto_edges human_edges (auto_index + 1) human_index components
              >>= λ clusters. ok (cluster ∷ clusters))
      else if not (is_empty (edges_within members human_edges))
      then (cluster_of tools config records (cluster_id_of "HR-" (human_index + 1)) auto_edges
            members
          >>= λ cluster.
              review_clusters_from auto_edges human_edges auto_index (human_index + 1) components
              >>= λ clusters. ok (cluster ∷ clusters))
      else review_clusters_from auto_edges human_edges auto_index human_index components

  -- With an outcome.
  unfoldable pub reviewed_clusters :
      ResolutionResult → ReviewWorkflowState → Result Fault (List EntityCluster)
  unfolding join_auto merge_edges never_forced resolved_match_pairs resolved_no_match_pairs
      group_by_root sorted_components review_clusters_from keys singletons sorted_texts pair_before
  reviewed_clusters resolution outcome =
      let members = sorted_texts (keys records) in
      let human_edges = sorted pair_before (resolved_match_pairs outcome) in
      join_auto (resolved_no_match_pairs outcome) members resolution.decisions []
        (singletons members)
      >>= λ automatic.
          merge_edges (resolved_no_match_pairs outcome) members never_forced human_edges automatic.1
          >>= λ p. group_by_root find_halving members p [] >>= λ components.
              review_clusters_from automatic.0 human_edges 0 0 (sorted_components components)

  unfoldable pub build_review_aware_clusters :
      ResolutionResult → Option ReviewWorkflowState → Result Fault (List EntityCluster)
  unfolding reviewed_clusters build_entity_clusters
  build_review_aware_clusters resolution none =
      build_entity_clusters tools config records resolution.decisions >>= λ built. ok built.0
  build_review_aware_clusters resolution (some outcome) = reviewed_clusters resolution outcome
