-- ===== src/Samples/Forests.antt =====
-- Runs of UnionFind.
use ai_data_quality_platform.Base.{
  String, Bool, false, List, [], ◌∷◌, ◌==◌, ◌||◌, ◌≡◌, refl, ◌↔◌, ok, text_eq,
}
use ai_data_quality_platform.Base.Assoc.{keys}
use ai_data_quality_platform.UnionFind.{
  Parent, find, find_halving, union, singletons, component_members, members_of,
}
use ai_data_quality_platform.UnionFind.Find.{find-IsFinder}
use ai_data_quality_platform.UnionFind.Halving.{find_halving-IsFinder}
use ai_data_quality_platform.UnionFind.Collect.{
  Collected, AllKeys, component_members-collects, members_of-collects,
}
use ai_data_quality_platform.UnionFind.Partition.{
  SameTree, JoinsExactly, union-JoinsExactly, singletons-IsForest, singletons-IsKey,
  singletons-Root,
}

abbrev three : List String
three = "a" ∷ "b" ∷ "c" ∷ []

-- The search compresses the path from "c" to "a".
find_compresses :
    find "c" (("a", "a") ∷ ("b", "a") ∷ ("c", "b") ∷ [])
    ≡ ok ("a", ("a", "a") ∷ ("b", "a") ∷ ("c", "a") ∷ [])
unfolding find
find_compresses = refl

find_halving_skips :
    find_halving "d" (("a", "a") ∷ ("b", "a") ∷ ("c", "b") ∷ ("d", "c") ∷ [])
    ≡ ok ("a", ("a", "a") ∷ ("b", "a") ∷ ("c", "b") ∷ ("d", "b") ∷ [])
unfolding find_halving
find_halving_skips = refl

union-JoinsExactly_example :
    (answer : Bool) × (q : Parent) × (union find "a" "b" (singletons three) ≡ ok (answer, q))
    × ((answer ≡ false) ↔ SameTree (singletons three) "a" "b")
    × JoinsExactly (singletons three) q "a" "b"
union-JoinsExactly_example =
    union-JoinsExactly find "a" "b" (singletons three) find-IsFinder (singletons-IsForest three)
      (singletons-IsKey "a" three refl) (singletons-IsKey "b" three refl)

all_keys : AllKeys three (singletons three)
all_keys m h = singletons-IsKey m three h

component_members-collects_example :
    Collected
      (λ root. root == "a" || root == "c")
      three
      (singletons three)
      (component_members find_halving three "a" "c" (singletons three))
component_members-collects_example =
    component_members-collects find_halving find_halving-IsFinder three "a" "c" "a" "c"
      (singletons three) (singletons-IsForest three) all_keys (singletons-Root "a" three refl)
      (singletons-Root "c" three refl)

members_of-collects_example :
    Collected
      (λ root. root == "b")
      (keys (singletons three))
      (singletons three)
      (members_of find "b" (singletons three))
members_of-collects_example =
    members_of-collects find find-IsFinder "b" "b" (singletons three) (singletons-IsForest three)
      (singletons-Root "b" three refl)
