-- ===== src/Graph/Outputs.antt =====
-- `_workload_matrix` and `write_graph_outputs` of src/osbench/graph.py. Files are values: the
-- result holds what is written to them, apart from the YAML and JSON text and the hash.
pub mod Valid
pub mod Matrix
use os_bench.Common.{
  ℕ, String, Bool, true, false, not, List, [], ◌∷◌, ◌++◌, ◌==◌, if◌then◌else◌, elem, Dict, keys,
  length,
}
use os_bench.Common.Result.{Result, ok, err, Error, key_error, value_error, type_error, ◌>>=◌}
use os_bench.Common.Items.{sorted_items}
use os_bench.Common.Sort.{sorted}
use os_bench.Common.Text.{concat, join}
use os_bench.Contracts.Model.{Contract, contracts_by_id}
use os_bench.Contracts.Validate.{ContractReport}
use os_bench.Graph.Adjacency.{Adjacency, neighbors, adjacency_of}
use os_bench.Graph.Closure.{closure}
use os_bench.Graph.Queries.{WorkloadItem, mapping, other, update}
use os_bench.Graph.Topology.{Node, Edge, Graph, Topology, build_graph, topology}

-- the loop over `direct`
unfoldable pub matrix_closure :
    Dict Contract → Adjacency → String → List String → List String → Result (List String)
matrix_closure contracts reverse name closed [] = ok closed
matrix_closure contracts reverse name closed (identifier ∷ rest) =
    let others =
      matrix_closure contracts reverse name
        (update closed (closure (neighbors reverse identifier) reverse)) rest in
    if not (elem identifier (keys contracts))
    then err (
        key_error (concat ("workload " ∷ name ∷ " references unknown Contract " ∷ identifier ∷ [])))
    else others

-- a row of the matrix: `{**value, "contract_closure": …}`
pub record MatrixRow : Type 0 where
  pub contracts : List String
  pub contract_closure : List String

-- the loop over `sorted(workloads.items())`; an entry that is no mapping has no `get`
unfoldable pub matrix_rows :
    Dict Contract → Adjacency → List (String × WorkloadItem) → Result (Dict MatrixRow)
unfolding matrix_closure
matrix_rows contracts reverse [] = ok []
matrix_rows contracts reverse ((name, other) ∷ rest) =
    err (type_error "'value' has no attribute 'get'")
matrix_rows contracts reverse ((name, mapping direct) ∷ rest) =
    matrix_closure contracts reverse name (update [] direct) direct >>= λ closed.
    matrix_rows contracts reverse rest >>= λ rows.
    ok ((name, record { contracts = direct; contract_closure = sorted closed }) ∷ rows)

unfoldable pub workload_matrix : Dict Contract → Dict WorkloadItem → Result (Dict MatrixRow)
unfolding matrix_rows
workload_matrix contracts workloads =
    matrix_rows contracts (adjacency_of true contracts) (sorted_items workloads)

unfoldable pub node_lines : List (String × Node) → List String
node_lines [] = []
node_lines ((identifier, metadata) ∷ rest) =
    concat
      ("  \"" ∷ identifier ∷ "\" [label=\"" ∷ identifier ∷ "\\n" ∷ metadata.level ∷ "\"];" ∷ [])
    ∷ node_lines rest

unfoldable pub edge_lines : List Edge → List String
edge_lines [] = []
edge_lines (e ∷ es) =
    concat ("  \"" ∷ e.source ∷ "\" -> \"" ∷ e.target ∷ "\";" ∷ []) ∷ edge_lines es

unfoldable pub dot_text : Graph → String
unfolding node_lines edge_lines
dot_text graph = concat (
    join "\n" (
      "digraph osbench {"
      ∷ "  rankdir=LR;"
      ∷ "  node [shape=box,fontname=Helvetica];"
      ∷ (node_lines (sorted_items graph.nodes) ++ (edge_lines graph.edges ++ "}" ∷ [])))
    ∷ "\n"
    ∷ [])

pub record Outputs : Type 0 where
  pub graph : Graph
  pub matrix : Dict MatrixRow
  pub dot : String
  pub nodes : ℕ
  pub edges : ℕ
  pub acyclic : Bool
  pub roots : List String
  pub topological_order_count : ℕ

unfoldable pub write_graph_outputs : ContractReport → Dict WorkloadItem → Result Outputs
unfolding workload_matrix dot_text
write_graph_outputs report workloads = build_graph report >>= λ graph. topology graph >>= λ t.
    if not t.acyclic
    then err (value_error "capability graph contains a cycle")
    else (workload_matrix (contracts_by_id report.contracts) workloads >>= λ matrix. ok (record {
      graph = graph;
      matrix = matrix;
      dot = dot_text graph;
      nodes = length (keys graph.nodes);
      edges = length graph.edges;
      acyclic = t.acyclic;
      roots = t.roots;
      topological_order_count = length t.order;
    }))
