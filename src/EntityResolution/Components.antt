-- ===== src/EntityResolution/Components.antt =====
-- The loop that both cluster builders end with (entity_resolution/clustering.py and
-- human_review/integration.py): the ids are grouped by root, and the edges of a group are kept.
use ai_data_quality_platform.Base.{
  String, none, some, List, [], ◌∷◌, ◌++◌, ◌&&◌, Result, ok, ◌>>=◌, contains, text_eq, text_lt,
  filter, sorted,
}
use ai_data_quality_platform.Base.Assoc.{Dict, lookup, insert}
use ai_data_quality_platform.UnionFind.{Parent, Fault, Finder}
use ai_data_quality_platform.EntityResolution.Models.{RecordPair}

-- A list of the dictionary `components`, which has an element from its start on.
pub record Component : Type 0 where
  pub first : String
  pub others : List String

abbrev pub ids_of : Component → List String
ids_of c = c.first ∷ c.others

-- `components.setdefault(root, []).append(member)`
unfoldable pub append_to : String → String → Dict Component → Dict Component
unfolding lookup insert
append_to root member d = elim (lookup root d) [
  | none ↦ insert root (record { first = member; others = [] }) d
  | some c ↦ insert root (record { first = c.first; others = c.others ++ member ∷ [] }) d
]

-- `for member in members: root = find(member); ...`
unfoldable pub group_by_root :
    Finder → List String → Parent → Dict Component → Result Fault (Dict Component)
unfolding append_to
group_by_root search_root [] p d = ok d
group_by_root search_root (member ∷ members) p d = search_root member p >>= λ found.
    group_by_root search_root members found.1 (append_to found.0 member d)

-- `components.values()`
abbrev pub values : Dict Component → List Component
values [] = []
values ((root, c) ∷ d) = c ∷ values d

-- `sorted(components.values(), key=lambda values: values[0])`
unfoldable pub sorted_components : Dict Component → List Component
unfolding text_lt
sorted_components d = sorted (λ c e. text_lt c.first e.first) (values d)

-- `tuple(edge for edge in edges if edge.record_a_id in members and edge.record_b_id in members)`
unfoldable pub edges_within : List String → List RecordPair → List RecordPair
edges_within members edges =
    filter (λ e. contains e.record_a_id members && contains e.record_b_id members) edges
