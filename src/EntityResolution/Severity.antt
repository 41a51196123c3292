-- ===== src/EntityResolution/Severity.antt =====
-- entity_resolution/clustering.py: `_cluster_has_severe_internal_conflict`.
pub mod Totality
use ai_data_quality_platform.Base.{
  String, Bool, true, false, Option, none, some, List, [], ◌∷◌, if◌then◌else◌, Result, ok, err,
  ◌>>=◌,
}
use ai_data_quality_platform.Base.Assoc.{Dict, lookup}
use ai_data_quality_platform.UnionFind.{Fault, key_error}
use ai_data_quality_platform.EntityResolution.Models.{
  EntityRecord, PairConflict, EntityResolutionConfig,
}
use ai_data_quality_platform.EntityResolution.Conflicts.{TextTools, collect_pair_conflicts}
use ai_data_quality_platform.EntityResolution.Decisions.{is_severe}

-- The first severe conflict's description.
unfoldable pub first_severe : EntityResolutionConfig → List PairConflict → Option String
unfolding is_severe
first_severe config [] = none
first_severe config (c ∷ conflicts) =
    if is_severe config c then some c.description else first_severe config conflicts

-- `records_by_id[...]`
unfoldable pub record_of : Dict EntityRecord → String → Result Fault EntityRecord
unfolding lookup
record_of records id = elim (lookup id records) [ none ↦ err (key_error id) | some r ↦ ok r ]

-- The inner loop returns at the first severe conflict, and so does the outer one.
abbrev pub or_later : Option String → Result Fault (Option String) → Result Fault (Option String)
or_later none later = later
or_later (some description) later = ok (some description)

abbrev pub or_next :
    Option String → Result Fault (Bool × Option String) → Result Fault (Bool × Option String)
or_next none next = next
or_next (some description) next = ok (true, some description)

module _ (tools : TextTools) (config : EntityResolutionConfig) where
  -- One member against each later one.
  unfoldable pub conflict_with_later :
      Dict EntityRecord → String → List String → Result Fault (Option String)
  unfolding record_of first_severe collect_pair_conflicts
  conflict_with_later records left_id [] = ok none
  conflict_with_later records left_id (right_id ∷ rest) = record_of records left_id >>= λ left.
      record_of records right_id >>= λ right.
      or_later (first_severe config (collect_pair_conflicts tools config left right))
        (conflict_with_later records left_id rest)

  -- `_cluster_has_severe_internal_conflict`
  unfoldable pub cluster_conflict :
      Dict EntityRecord → List String → Result Fault (Bool × Option String)
  unfolding conflict_with_later
  cluster_conflict records [] = ok (false, none)
  cluster_conflict records (left_id ∷ rest) = conflict_with_later records left_id rest >>= λ found.
      or_next found (cluster_conflict records rest)
