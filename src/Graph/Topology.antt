-- ===== src/Graph/Topology.antt =====
-- `build_graph` and `_topology` of src/osbench/graph.py: the graph document and Kahn's algorithm.
pub mod Spec
mod Counting
mod Start
pub mod Built
mod Invariant
pub mod Correct
use os_bench.Common.{
  ℕ, zero, suc, String, Bool, true, false, not, ◌&&◌, List, [], ◌∷◌, ◌++◌, ◌==◌, if◌then◌else◌,
  Option, none, some, Dict, keys, lookup, insert, push, lookup_list, length, nat_eq,
}
use os_bench.Common.Int.{ℤ, pos, negsuc, increment, decrement, is_zero}
use os_bench.Common.Result.{Result, ok, err, Error, key_error, value_error, ◌>>=◌}
use os_bench.Common.Sort.{sorted, sort_by}
use os_bench.Common.Text.{text_leb}
use os_bench.Contracts.Model.{Contract}
use os_bench.Contracts.Validate.{ContractReport, valid}
use os_bench.Graph.Adjacency.{Adjacency, neighbors}

pub record Node : Type 0 where
  pub level : String
  pub domain : String
  pub title : String
  pub transport : String
  pub workloads : List String

-- `{"from": …, "to": …, "type": "prerequisite"}`
pub record Edge : Type 0 where
  pub source : String
  pub target : String

pub record Graph : Type 0 where
  pub nodes : Dict Node
  pub edges : List Edge

abbrev pub node_of : Contract → Node
node_of c = record {
  level = c.level;
  domain = c.domain;
  title = c.title;
  transport = c.transport;
  workloads = c.workloads;
}

unfoldable pub add_nodes : List Contract → Dict Node → Dict Node
add_nodes [] nodes = nodes
add_nodes (c ∷ cs) nodes = add_nodes cs (insert c.id (node_of c) nodes)

unfoldable pub edges_into : String → List String → List Edge
edges_into identifier [] = []
edges_into identifier (d ∷ ds) =
    record { source = d; target = identifier } ∷ edges_into identifier ds

unfoldable pub edges_of : List Contract → List Edge
unfolding edges_into
edges_of [] = []
edges_of (c ∷ cs) = edges_into c.id c.prerequisites ++ edges_of cs

-- `key=lambda item: (item["from"], item["to"])`
abbrev pub edge_leb : Edge → Edge → Bool
edge_leb e f =
    if e.source == f.source then text_leb e.target f.target else text_leb e.source f.source

unfoldable pub build_graph : ContractReport → Result Graph
unfolding add_nodes edges_of
build_graph report =
    if not (valid report)
    then err (value_error "invalid Contract corpus")
    else ok (record {
      nodes = add_nodes report.contracts [];
      edges = sort_by edge_leb (edges_of report.contracts);
    })

pub record Indexed : Type 0 where
  pub indegree : Dict ℤ
  pub adjacency : Adjacency

-- `for edge in graph["edges"]`
unfoldable pub index_edges : List Edge → Indexed → Result Indexed
index_edges [] s = ok s
index_edges (e ∷ es) s = elim (lookup e.target s.indegree) [
  | none ↦ err (key_error e.target)
  | some k ↦ index_edges es (record {
    indegree = insert e.target (increment k) s.indegree;
    adjacency = push e.source e.target s.adjacency;
  })
]

-- `{identifier: 0 for identifier in graph["nodes"]}`
unfoldable pub zeros : List String → Dict ℤ
zeros [] = []
zeros (k ∷ ks) = (k, pos 0) ∷ zeros ks

unfoldable pub zero_ids : Dict ℤ → List String
zero_ids [] = []
zero_ids ((k, v) ∷ rest) = let others = zero_ids rest in if is_zero v then k ∷ others else others

pub record Sweep : Type 0 where
  pub indegree : Dict ℤ
  pub queue : List String
  pub order : List String

-- `for child in sorted(…)`: the body for one child whose count is `k`
abbrev pub release_one : String → ℤ → Sweep → Sweep
release_one child k s = record {
  indegree = insert child (decrement k) s.indegree;
  queue = if is_zero (decrement k) then s.queue ++ child ∷ [] else s.queue;
  order = s.order;
}

unfoldable pub release : List String → Sweep → Result Sweep
release [] s = ok s
release (child ∷ rest) s = elim (lookup child s.indegree) [
  | none ↦ err (key_error child)
  | some k ↦ release rest (release_one child k s)
]

-- `while queue:`; a sweep whose fuel has run out keeps its queue
unfoldable pub sweep_loop : ℕ → Adjacency → Sweep → Result Sweep
unfolding release
sweep_loop zero adjacency s = ok s
sweep_loop (suc fuel) adjacency s = elim s.queue [
  | [] ↦ ok s
  | identifier ∷ rest ↦
      release (sorted (neighbors adjacency identifier))
        (record { indegree = s.indegree; queue = rest; order = s.order ++ identifier ∷ [] })
      >>= λ t. sweep_loop fuel adjacency t
]

pub record Topology : Type 0 where
  pub acyclic : Bool
  pub roots : List String
  pub order : List String

-- Each node is queued at most once, so there are at most as many rounds as nodes.
unfoldable pub topology : Graph → Result Topology
unfolding index_edges zeros zero_ids sweep_loop
topology graph =
    index_edges graph.edges (record { indegree = zeros (keys graph.nodes); adjacency = [] })
    >>= λ indexed.
        let roots = sorted (zero_ids indexed.indegree) in
        sweep_loop (length (keys graph.nodes)) indexed.adjacency
          (record { indegree = indexed.indegree; queue = roots; order = [] })
        >>= λ t. ok (record {
          acyclic = nat_eq (length t.order) (length (keys graph.nodes));
          roots = roots;
          order = t.order;
        })
