-- ===== src/EntityResolution/Grouping.antt =====
-- The ids of a component that the grouping loop makes have one root.
use ai_data_quality_platform.Base.{
  String, true, none, some, List, [], ◌∷◌, ◌++◌, ◌||◌, ◌≡◌, refl, sym, ◌∙◌, inl, inr, contains,
  text_eq, subst, ok, Option-cases, contains-append, contains-cons_cases, text_lt, contains_self,
  contains_cons, or_cases,
}
use ai_data_quality_platform.Base.Assoc.{Dict, lookup, insert}
use ai_data_quality_platform.Base.AllOf.{AllOf, AllOf-insert, AllOf-lookup, AllOf-sorted}
use ai_data_quality_platform.UnionFind.{Parent, Finder}
use ai_data_quality_platform.UnionFind.Forest.{
  IsKey, IsForest, Root, Refines, Refines-refl, Refines-trans, Found, IsFinder,
}
use ai_data_quality_platform.UnionFind.Find.{Root-back}
use ai_data_quality_platform.UnionFind.Collect.{AllKeys}
use ai_data_quality_platform.EntityResolution.Components.{
  Component, ids_of, append_to, group_by_root, values, sorted_components,
}

abbrev pub HasRoot : Parent → String → Component → Type 0
HasRoot p root c = (m : String) → contains m (ids_of c) ≡ true → Root p m root

abbrev pub OneRoot : Parent → Component → Type 0
OneRoot p c = (root : String) × HasRoot p root c

abbrev Grouped : Parent → Dict Component → Type 0
Grouped p d = AllOf (λ entry. HasRoot p entry.0 entry.1) d

HasRoot-fresh :
    (p : Parent) (root member : String)
    → Root p member root
    → HasRoot p root (record { first = member; others = [] })
HasRoot-fresh p root member way m h = elim (contains-cons_cases m member [] h) [
  | inl same ↦ subst (λ w. Root p w root) same way
  | inr none_left ↦ cc
]

HasRoot-more :
    (p : Parent) (root member : String) (c : Component)
    → Root p member root
    → HasRoot p root c
    → HasRoot p root (record { first = c.first; others = c.others ++ member ∷ [] })
HasRoot-more p root member c way old m h =
    elim (contains-cons_cases m c.first (c.others ++ member ∷ []) h) [
      | inl same ↦
          old m (subst (λ w. contains w (ids_of c) ≡ true) same (contains_self c.first c.others))
      | inr rest ↦
          let split : (contains m c.others || contains m (member ∷ [])) ≡ true =
            sym (contains-append m c.others (member ∷ [])) ∙ rest in
          elim (or_cases (contains m c.others) (contains m (member ∷ [])) split) [
            | inl there ↦ old m (contains_cons m c.first c.others there)
            | inr last ↦ HasRoot-fresh p root member way m last
          ]
    ]

append_to-missing :
    (root member : String) (d : Dict Component)
    → lookup root d ≡ none
    → append_to root member d ≡ insert root (record { first = member; others = [] }) d
unfolding append_to
append_to-missing root member d h = rw (h, append_to)

append_to-found :
    (root member : String) (c : Component) (d : Dict Component)
    → lookup root d ≡ some c
    → append_to root member d
      ≡ insert root (record { first = c.first; others = c.others ++ member ∷ [] }) d
unfolding append_to
append_to-found root member c d h = rw (h, append_to)

append_to-Grouped :
    (p : Parent) (root member : String) (d : Dict Component)
    → Root p member root
    → Grouped p d
    → Grouped p (append_to root member d)
append_to-Grouped p root member d way g = elim (Option-cases (lookup root d)) [
  | inl missing ↦ subst (Grouped p) (sym (append_to-missing root member d missing)) (
      AllOf-insert (λ entry. HasRoot p entry.0 entry.1) root
        (record { first = member; others = [] }) d g (HasRoot-fresh p root member way))
  | inr (c, found) ↦ subst (Grouped p) (sym (append_to-found root member c d found)) (
      AllOf-insert (λ entry. HasRoot p entry.0 entry.1) root
        (record { first = c.first; others = c.others ++ member ∷ [] }) d g
        (HasRoot-more p root member c way
          (AllOf-lookup (λ entry. HasRoot p entry.0 entry.1) root c d g found)))
]

-- The grouping loop returns, and every list of its dictionary has the root that is its key.
group_by_root-Grouped :
    (search_root : Finder) (members : List String) (p q : Parent) (d : Dict Component)
    → IsFinder search_root
    → IsForest p
    → Refines p q
    → AllKeys members p
    → Grouped p d
    → (e : Dict Component) × (group_by_root search_root members q d ≡ ok e) × Grouped p e
unfolding group_by_root
group_by_root-Grouped search_root [] p q d laws f r keyed g = (d, refl, g)
group_by_root-Grouped search_root (m ∷ members) p q d laws f r keyed g =
    let k : IsKey m p = keyed m (contains_self m members) in
    let found : Found q m (search_root m q) = laws.finds m q r.forest (rw r.same_keys k) in
    let way : Root p m found.root = Root-back f r k found.way in
    let (e, returns, grouped) =
      group_by_root-Grouped search_root members p found.after (append_to found.root m d) laws f
        (Refines-trans r found.refines) (λ x h. keyed x (contains_cons x m members h))
        (append_to-Grouped p found.root m d way g) in
    (e, rw found.returns returns, grouped)

values-OneRoot : (p : Parent) (d : Dict Component) → Grouped p d → AllOf (OneRoot p) (values d)
values-OneRoot p [] g = tt
values-OneRoot p ((root, c) ∷ d) (h, g) = ((root, h), values-OneRoot p d g)

-- The components that are made into clusters.
pub group_by_root-OneRoot :
    (search_root : Finder) (members : List String) (p : Parent)
    → IsFinder search_root
    → IsForest p
    → AllKeys members p
    → (d : Dict Component) × (group_by_root search_root members p [] ≡ ok d)
      × AllOf (OneRoot p) (sorted_components d)
unfolding sorted_components
group_by_root-OneRoot search_root members p laws f keyed =
    let (d, returns, g) =
      group_by_root-Grouped search_root members p p [] laws f (Refines-refl f) keyed tt in
    (
      d,
      returns,
      AllOf-sorted (OneRoot p) (λ c e. text_lt c.first e.first) (values d) (values-OneRoot p d g),
    )
