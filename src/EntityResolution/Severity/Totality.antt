-- ===== src/EntityResolution/Severity/Totality.antt =====
-- The search for a severe conflict among stored records returns.
use ai_data_quality_platform.Base.{
  String, Bool, true, false, Option, none, some, List, [], ◌∷◌, ◌≡◌, refl, inl, inr, contains,
  text_eq, ◌==◌, ok, ap, ◌∙◌, ◌>>=◌, if_true, Bool-cases, Option-cases, contains_self,
  contains_cons,
}
use ai_data_quality_platform.Base.Assoc.{Dict, lookup, keys}
use ai_data_quality_platform.EntityResolution.Models.{EntityRecord, EntityResolutionConfig}
use ai_data_quality_platform.EntityResolution.Conflicts.{TextTools, collect_pair_conflicts}
use ai_data_quality_platform.EntityResolution.Severity.{
  first_severe, record_of, conflict_with_later, cluster_conflict,
}
use ai_data_quality_platform.EntityResolution.Clustering.{guarded}

lookup_known :
    {V : Type 0} (x : String) (d : Dict V)
    → contains x (keys d) ≡ true
    → (v : V) × (lookup x d ≡ some v)
unfolding lookup keys
lookup_known x [] h = cc
lookup_known x ((j, v) ∷ d) h = elim (Bool-cases (j == x)) [
  | inl e ↦ (v, rw e)
  | inr ne ↦ rw ne (lookup_known x d (rw ne at h))
]

record_of-returns :
    (records : Dict EntityRecord) (x : String)
    → contains x (keys records) ≡ true
    → (r : EntityRecord) × (record_of records x ≡ ok r)
unfolding record_of
record_of-returns records x h =
    let (r, found) = lookup_known x records h in (r, rw (found, record_of))

module _ (tools : TextTools) (config : EntityResolutionConfig) (records : Dict EntityRecord) where
  conflict_with_later-returns :
      (left_id : String) (members : List String)
      → contains left_id (keys records) ≡ true
      → ((x : String) → contains x members ≡ true → contains x (keys records) ≡ true)
      → (found : Option String) × (conflict_with_later tools config records left_id members
          ≡ ok found)
  unfolding conflict_with_later
  conflict_with_later-returns left_id [] k known = (none, refl)
  conflict_with_later-returns left_id (right_id ∷ rest) k known =
      let (left, finds_left) = record_of-returns records left_id k in
      let (right, finds_right) =
        record_of-returns records right_id (known right_id (contains_self right_id rest)) in
      elim (Option-cases (first_severe config (collect_pair_conflicts tools config left right))) [
        | inr (description, severe) ↦
            (some description, rw finds_left (rw finds_right (rw severe refl)))
        | inl harmless ↦
            let (found, returns) =
              conflict_with_later-returns left_id rest k
                (λ x h. known x (contains_cons x right_id rest h)) in
            (found, rw finds_left (rw finds_right (rw harmless returns)))
      ]

  pub cluster_conflict-returns :
      (members : List String)
      → ((x : String) → contains x members ≡ true → contains x (keys records) ≡ true)
      → (found : Bool) × (description : Option String) × (cluster_conflict tools config records
            members
          ≡ ok (found, description))
  unfolding cluster_conflict
  cluster_conflict-returns [] known = (false, none, refl)
  cluster_conflict-returns (left_id ∷ rest) known =
      let (later, returns) =
        conflict_with_later-returns left_id rest (known left_id (contains_self left_id rest))
          (λ x h. known x (contains_cons x left_id rest h)) in
      elim (Option-cases later) [
        | inr (description, severe) ↦ (true, some description, rw returns (rw severe refl))
        | inl harmless ↦
            let (found, description, rest_returns) =
              cluster_conflict-returns rest (λ x h. known x (contains_cons x left_id rest h)) in
            (found, description, rw returns (rw harmless rest_returns))
      ]

  pub guarded-returns :
      (members : List String)
      → ((x : String) → contains x members ≡ true → contains x (keys records) ≡ true)
      → (answer : Bool) × (guarded tools config records members ≡ ok answer)
  unfolding guarded
  guarded-returns members known = elim (Bool-cases config.cluster_conflict_guard) [
    | inl on ↦
        let (found, description, returns) = cluster_conflict-returns members known in
        (
          found,
          if_true config.cluster_conflict_guard
                (cluster_conflict tools config records members >>= λ answer. ok answer.0) (ok false)
                on
              ∙ ap (λ r. r >>= λ answer. ok answer.0) returns,
        )
    | inr off ↦ (false, rw off refl)
  ]
