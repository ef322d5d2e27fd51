-- ===== src/Contracts/Cycles.antt =====
-- `_cycle_nodes` of src/osbench/contracts.py: depth-first search for a prerequisite cycle.
pub mod Depth
pub mod Found
pub mod Clear
pub mod Decides
use os_bench.Common.{
  ℕ, zero, suc, String, Bool, true, false, List, [], ◌∷◌, ◌++◌, ◌==◌, if◌then◌else◌, elem, Dict,
  insert, keys, lookup_list, length, remove,
}
use os_bench.Common.Sort.{sorted}
use os_bench.Contracts.Model.{Contract}

abbrev pub Dependencies : Type 0
Dependencies = Dict (List String)

-- `visited` is a set, newest first here; `stack` grows at its end.
pub record Dfs : Type 0 where
  pub visiting : List String
  pub visited : List String
  pub stack : List String

pub data Outcome : Type 0 where
  continue : Dfs → Outcome
  cycle : List String → Outcome
  exhausted : Outcome

-- `stack.pop()`
abbrev pub pop : List String → List String
pop [] = []
pop (x ∷ []) = []
pop (x ∷ y ∷ rest) = x ∷ pop (y ∷ rest)

-- `stack[stack.index(node):]`
abbrev pub from_index : String → List String → List String
from_index k [] = []
from_index k (x ∷ xs) = if k == x then x ∷ xs else from_index k xs

-- `for dependency in …: cycle = visit(dependency); if cycle: return cycle`
unfoldable pub visit_all : (String → Dfs → Outcome) → List String → Dfs → Outcome
visit_all call [] s = continue s
visit_all call (d ∷ ds) s = elim (call d s) [
  | continue s' ↦ visit_all call ds s'
  | cycle c ↦ cycle c
  | exhausted ↦ exhausted
]

abbrev pub enter : String → Dfs → Dfs
enter node s = record {
  visiting = node ∷ s.visiting;
  visited = s.visited;
  stack = s.stack ++ node ∷ [];
}

abbrev pub leave : String → Outcome → Outcome
leave node (continue s) =
    continue (record {
      visiting = remove node s.visiting;
      visited = node ∷ s.visited;
      stack = pop s.stack;
    })
leave node (cycle c) = cycle c
leave node exhausted = exhausted

unfoldable pub visit : ℕ → Dependencies → String → Dfs → Outcome
unfolding visit_all
visit zero dependencies node s = exhausted
visit (suc fuel) dependencies node s =
    if elem node s.visited
    then continue s
    else if elem node s.visiting
    then cycle (from_index node s.stack ++ node ∷ [])
    else leave node
        (visit_all (visit fuel dependencies) (lookup_list node dependencies) (enter node s))

-- `{str(contract["id"]): [...prerequisites] for contract in contracts}`
unfoldable pub add_dependencies : List Contract → Dependencies → Dependencies
add_dependencies [] dependencies = dependencies
add_dependencies (c ∷ cs) dependencies =
    add_dependencies cs (insert c.id c.prerequisites dependencies)

unfoldable pub dependencies_of : List Contract → Dependencies
unfolding add_dependencies
dependencies_of contracts = add_dependencies contracts []

abbrev pub start : Dfs
start = record { visiting = []; visited = []; stack = [] }

-- A path of the search enters each key at most once, and one node beyond them.
unfoldable pub cycle_search : Dependencies → Outcome
unfolding visit
cycle_search dependencies =
    visit_all (visit (suc (suc (length (keys dependencies)))) dependencies)
      (sorted (keys dependencies)) start

-- the list that the function returns
abbrev pub returned : Outcome → List String
returned (continue s) = []
returned (cycle c) = c
returned exhausted = []

unfoldable pub cycle_nodes : List Contract → List String
unfolding cycle_search dependencies_of
cycle_nodes contracts = returned (cycle_search (dependencies_of contracts))
