-- ===== src/Samples/GraphCases.antt =====
-- The theorems on src/osbench/graph.py at the sample corpus.
use os_bench.Common.{
  any, ◌&&◌, ◌==◌, String, ◌≡◌, refl, ◌↔◌, true, false, List, [], ◌∷◌, arith, eq_iff, elem, Dict,
  keys, lookup, some,
}
use os_bench.Common.Result.{ok}
use os_bench.Common.Sort.{sorted, sort_by, insert_sorted}
use os_bench.Common.Text.{text_leb}
use os_bench.Contracts.Model.{Contract}
use os_bench.Contracts.Cycles.{
  cycle_nodes, cycle_search, dependencies_of, add_dependencies, visit_all, visit,
}
use os_bench.Contracts.Validate.{
  valid, ids, validate_contracts, scan_files, scan_file, add_contract, link_issues, contract_issues,
  prerequisite_issues, orthogonal_issues, cycle_issues,
}
use os_bench.Contracts.Validate.Corpus.{documents}
use os_bench.Graph.Adjacency.{Adjacency, adjacency_of, add_contracts, sort_values}
use os_bench.Graph.Adjacency
use os_bench.Graph.Closure
use os_bench.Graph.Closure.{closure, Reach, search_loop, search_of, edge_count}
use os_bench.Graph.Closure.Correct.{closure_correct}
use os_bench.Graph.Queries.{WorkloadItem, mapping}
use os_bench.Graph.Frontier.{ContractEntry, has_passed, frontier, frontier_correct}
use os_bench.Graph.Topology.{Graph, Node, Topology, topology, build_graph}
use os_bench.Graph.Topology.Spec.{edge_in, IsTopologicalOrder}
use os_bench.Graph.Topology.Correct.{IsGraph, topology_correct}
use os_bench.Graph.Outputs.{MatrixRow, workload_matrix, matrix_rows, matrix_closure}
use os_bench.Graph.Outputs.Valid.{valid_corpus-has_topology}
use os_bench.Samples.Corpus.{by_id, corpus_files}

abbrev adjacency : Adjacency
adjacency = ("a", "b" ∷ "c" ∷ []) ∷ ("b", "c" ∷ []) ∷ []

closure_correct_example :
    (elem "c" (closure ("b" ∷ []) adjacency) ≡ true) ↔ Reach adjacency ("b" ∷ []) "c"
closure_correct_example = closure_correct ("b" ∷ []) adjacency "c"

abbrev entries : Dict ContractEntry
entries = ("a", ContractEntry.mapping true) ∷ ("b", ContractEntry.other) ∷ []

frontier_correct_example : (elem "b" (frontier by_id entries) ≡ true) ↔ (
    (contract : Contract) × (lookup "b" by_id ≡ some contract)
    × (has_passed entries "b" ≡ false)
    × ((d : String) → elem d contract.prerequisites ≡ true → has_passed entries d ≡ true))
frontier_correct_example = frontier_correct by_id entries refl refl "b"

abbrev node : Node
node = record { level = "L1"; domain = "files"; title = "t"; transport = "probe"; workloads = [] }

abbrev graph : Graph
graph = record {
  nodes = ("a", node) ∷ ("b", node) ∷ [];
  edges = record { source = "a"; target = "b" } ∷ [];
}

graph-IsGraph : IsGraph graph
graph-IsGraph = record {
  distinct = refl;
  targets = refl;
  sources = λ a n e. ground (arith, eq_iff a "a");
}

topology_correct_example :
    (t : Topology) × (topology graph ≡ ok t)
    × ((t.acyclic ≡ true) ↔ ((order : List String) × IsTopologicalOrder graph order))
    × (t.acyclic ≡ true → IsTopologicalOrder graph t.order)
topology_correct_example = topology_correct graph graph-IsGraph

corpus_files-valid : valid (validate_contracts corpus_files) ≡ true
unfolding validate_contracts scan_files scan_file add_contract link_issues contract_issues
    prerequisite_issues orthogonal_issues cycle_issues cycle_nodes cycle_search dependencies_of
    add_dependencies sorted sort_by insert_sorted text_leb visit_all visit
corpus_files-valid = refl

valid_corpus-has_topology_example :
    (graph : Graph) × (t : Topology) × (build_graph (validate_contracts corpus_files) ≡ ok graph)
    × ((k : String) → elem k (keys graph.nodes) ≡ elem k (ids (documents corpus_files)))
    × ((a n : String)
        → edge_in graph.edges a n
          ≡ any (λ (c : Contract). elem a c.prerequisites && n == c.id) (documents corpus_files))
    × (topology graph ≡ ok t)
    × (t.acyclic ≡ true)
    × IsTopologicalOrder graph t.order
valid_corpus-has_topology_example = valid_corpus-has_topology corpus_files corpus_files-valid

abbrev workloads : Dict WorkloadItem
workloads = ("shell", mapping ("c" ∷ [])) ∷ ("boot", mapping ("a" ∷ [])) ∷ []

abbrev shell_row : MatrixRow
shell_row = record { contracts = "c" ∷ []; contract_closure = "a" ∷ "b" ∷ "c" ∷ [] }

abbrev rows : Dict MatrixRow
rows =
    ("boot", record { contracts = "a" ∷ []; contract_closure = "a" ∷ [] })
    ∷ ("shell", shell_row)
    ∷ []

matrix_built : workload_matrix by_id workloads ≡ ok rows
unfolding workload_matrix matrix_rows matrix_closure adjacency_of add_contracts
    Adjacency.add_dependencies sort_values closure search_loop Closure.visit sorted sort_by
    insert_sorted text_leb
matrix_built = refl
