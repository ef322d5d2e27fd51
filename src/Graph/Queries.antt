-- ===== src/Graph/Queries.antt =====
-- The queries of src/osbench/graph.py on the transitive prerequisites. `contracts` is what
-- `contracts_by_id()` returns.
pub mod Duality
use os_bench.Common.{
  String, Bool, true, false, not, Option, none, some, List, [], ◌∷◌, ◌==◌, if◌then◌else◌, elem, add,
  Dict, keys, lookup,
}
use os_bench.Common.Result.{Result, ok, err, Error, key_error, ◌>>=◌, ◌>>◌, raise_if}
use os_bench.Common.Sort.{sorted}
use os_bench.Contracts.Model.{Contract}
use os_bench.Graph.Adjacency.{Adjacency, neighbors, adjacency_of}
use os_bench.Graph.Closure.{closure}

-- `contract_id not in contracts`
unfoldable pub query : Dict Contract → Adjacency → String → Bool → Result (List String)
query contracts adjacency contract_id transitive =
    if not (elem contract_id (keys contracts))
    then err (key_error contract_id)
    else if transitive
    then ok (closure (neighbors adjacency contract_id) adjacency)
    else ok (neighbors adjacency contract_id)

unfoldable pub prerequisites : Dict Contract → String → Bool → Result (List String)
unfolding query
prerequisites contracts contract_id transitive =
    query contracts (adjacency_of true contracts) contract_id transitive

unfoldable pub unlocked_by : Dict Contract → String → Bool → Result (List String)
unfolding query
unlocked_by contracts contract_id transitive =
    query contracts (adjacency_of false contracts) contract_id transitive

-- An entry of capability_graph/workloads.yaml: a mapping with its `contracts`, or anything else.
pub data WorkloadItem : Type 0 where
  mapping : List String → WorkloadItem
  other : WorkloadItem

-- `closure.update(values)`
abbrev pub update : List String → List String → List String
update closed [] = closed
update closed (x ∷ xs) = update (add x closed) xs

-- `for identifier in direct: closure.update(prerequisites(identifier))`
unfoldable pub close_over : Dict Contract → List String → List String → Result (List String)
close_over contracts closed [] = ok closed
close_over contracts closed (identifier ∷ rest) =
    prerequisites contracts identifier true >>= λ found.
    close_over contracts (update closed found) rest

unfoldable pub contracts_for_workload :
    Dict Contract → Dict WorkloadItem → String → Result (List String)
unfolding close_over
contracts_for_workload contracts workloads workload = elim (lookup workload workloads) [
  | none ↦ err (key_error workload)
  | some item ↦ elim item [
    | other ↦ err (key_error workload)
    | mapping direct ↦
        close_over contracts (update [] direct) direct >>= λ closed. ok (sorted closed)
  ]
]

-- the comprehension over `_workload_document()`
unfoldable pub select_workloads :
    Dict Contract → Dict WorkloadItem → String → List String → Result (List String)
select_workloads contracts workloads contract_id [] = ok []
select_workloads contracts workloads contract_id (workload ∷ rest) =
    contracts_for_workload contracts workloads workload >>= λ found.
    select_workloads contracts workloads contract_id rest >>= λ others.
    ok (if elem contract_id found then workload ∷ others else others)

unfoldable pub workloads_for : Dict Contract → Dict WorkloadItem → String → Result (List String)
unfolding select_workloads
workloads_for contracts workloads contract_id =
    if not (elem contract_id (keys contracts))
    then err (key_error contract_id)
    else (select_workloads contracts workloads contract_id (keys workloads) >>= λ found.
        ok (sorted found))
