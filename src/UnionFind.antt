-- ===== src/UnionFind.antt =====
-- Union-find over record ids, kept in one `parent` dictionary: the class `_UnionFind` of
-- entity_resolution/clustering.py and of human_review/constraints.py (recursive `find` that
-- compresses the path), and the closures `find`, `union` and `component_members` of
-- human_review/integration.py and human_review/authorization.py (a loop that halves the path).
-- Both searches take the number of stored ids and one as fuel, and UnionFind/Find and UnionFind/Halving
-- show that it is enough. Python's own limit on recursion depth is not modelled.
pub mod Forest
pub mod Find
pub mod Halving
pub mod Union
pub mod Collect
pub mod Partition
use ai_data_quality_platform.Base.{
  ℕ, zero, suc, String, Bool, true, false, Option, none, some, List, [], ◌∷◌, Result, ok, err,
  ◌>>=◌, ◌||◌, ◌==◌, text_lt, if◌then◌else◌, length,
}
use ai_data_quality_platform.Base.Assoc.{Dict, lookup, insert, keys}

abbrev pub Parent : Type 0
Parent = Dict String

-- `parent[node]` of an id that is not stored raises KeyError.
pub data Fault : Type 0 where
  key_error : String → Fault
  out_of_fuel : Fault

abbrev pub Finder : Type 0
Finder = String → Parent → Result Fault (String × Parent)

add_singletons : Parent → List String → Parent
unfolding insert
add_singletons p [] = p
add_singletons p (m ∷ ms) = add_singletons (insert m m p) ms

-- `{member: member for member in members}`
unfoldable pub singletons : List String → Parent
unfolding add_singletons
singletons members = add_singletons [] members

-- `_UnionFind.find`: the call on the parent comes first, then the compressing write.
find_fuel : ℕ → Finder
find_fuel zero node p = err out_of_fuel
find_fuel (suc fuel) node p = elim (lookup node p) [
  | none ↦ err (key_error node)
  | some above ↦
      let root_above : Result Fault (String × Parent) = find_fuel fuel above p in
      if above == node
      then ok (node, p)
      else (root_above >>= λ found. ok (found.0, insert node found.0 found.1))
]

unfoldable pub find : Finder
unfolding find_fuel lookup insert keys
find node p = find_fuel (suc (length (keys p))) node p

-- `while parent[node] != node: parent[node] = parent[parent[node]]; node = parent[node]`
halve_fuel : ℕ → Finder
halve_fuel zero node p = err out_of_fuel
halve_fuel (suc fuel) node p = elim (lookup node p) [
  | none ↦ err (key_error node)
  | some above ↦ elim (lookup above p) [
    | none ↦ if above == node then ok (node, p) else err (key_error above)
    | some grand ↦
        let rest : Result Fault (String × Parent) = halve_fuel fuel grand (insert node grand p) in
        if above == node then ok (node, p) else rest
  ]
]

unfoldable pub find_halving : Finder
unfolding halve_fuel lookup insert keys
find_halving node p = halve_fuel (suc (length (keys p))) node p

-- The last step of `union`: the smaller root becomes the parent of the other.
link : String → String → Parent → Bool × Parent
link root_left root_right p =
    if root_left == root_right
    then (false, p)
    else if text_lt root_left root_right
    then (true, insert root_right root_left p)
    else (true, insert root_left root_right p)

-- What follows runs on either search.
module _ (search_root : Finder) where
  -- `union(left, right)`, with the answer that the class of clustering.py gives.
  unfoldable pub union : String → String → Parent → Result Fault (Bool × Parent)
  unfolding link
  union left right p =
      search_root left p >>= λ l. search_root right l.1 >>= λ r. ok (link l.0 r.0 r.1)

  -- `{member for member in ids if find(member) in roots}`: the searches write as they go.
  unfoldable pub members_with_root :
      (String → Bool) → List String → Parent → Result Fault (List String × Parent)
  members_with_root wanted [] p = ok ([], p)
  members_with_root wanted (member ∷ ids) p = search_root member p >>= λ found.
      members_with_root wanted ids found.1 >>= λ rest.
      ok (if wanted found.0 then member ∷ rest.0 else rest.0, rest.1)

  -- `component_members(left, right)` of the two closures.
  unfoldable pub component_members :
      List String → String → String → Parent → Result Fault (List String × Parent)
  unfolding members_with_root
  component_members members left right p = search_root left p >>= λ l.
      search_root right l.1 >>= λ r.
      members_with_root (λ root. root == l.0 || root == r.0) members r.1

  -- `_UnionFind.members_of(node)`
  unfoldable pub members_of : String → Parent → Result Fault (List String × Parent)
  unfolding members_with_root keys
  members_of node p =
      search_root node p >>= λ l. members_with_root (λ root. root == l.0) (keys l.1) l.1
