-- ===== src/Graph/Outputs/Valid.antt =====
-- The graph and the topological order of a valid corpus (src/osbench/graph.py).
use os_bench.Common.{
  String, ◌==◌, any, ◌&&◌, ◌≡◌, refl, ap, ◌∙◌, sym, true, List, [], ◌∷◌, arith, elem, keys,
}
use os_bench.Common.Result.{ok}
use os_bench.Common.Sort.{sort_by, all-sort_by}
use os_bench.Precedence.{Relation, IsTopological}
use os_bench.Contracts.Model.{Contract}
use os_bench.Contracts.Cycles.{dependencies_of}
use os_bench.Contracts.Cycles.Clear.{DependsOn}
use os_bench.Contracts.Cycles.Decides.{cycle_nodes_order}
use os_bench.Contracts.Validate.{FileRead, valid, ids, validate_contracts}
use os_bench.Contracts.Validate.Corpus.{documents, IsSound}
use os_bench.Contracts.Validate.Sound.{valid-IsSound}
use os_bench.Graph.Topology.{
  Edge, Graph, Topology, add_nodes, edges_of, edge_leb, build_graph, topology,
}
use os_bench.Graph.Topology.Spec.{edge_in, IsTopologicalOrder}
use os_bench.Graph.Topology.Correct.{IsGraph, topology_accepts}
use os_bench.Graph.Topology.Built.{
  elem-keys-add_nodes, nodup-keys-add_nodes, edge_in-sort_by, targets_known-all, edge_in-edges_of,
  targets_known-edges_of, lookup_list-add_dependencies, elem-keys-add_dependencies, edge_in-lists,
}

abbrev graph_of : List Contract → Graph
graph_of cs = record { nodes = add_nodes cs []; edges = sort_by edge_leb (edges_of cs) }

elem-node : (k : String) (cs : List Contract) → elem k (keys (graph_of cs).nodes) ≡ elem k (ids cs)
elem-node k cs = elem-keys-add_nodes k cs [] ∙ ground arith

graph_of-IsGraph :
    (files : List (String × FileRead)) → IsSound files → IsGraph (graph_of (documents files))
graph_of-IsGraph files sound =
    let cs = documents files in
    let nodes = keys (graph_of cs).nodes in
    record {
      distinct = nodup-keys-add_nodes cs [] refl;
      targets =
          targets_known-all nodes (sort_by edge_leb (edges_of cs))
          ∙ all-sort_by edge_leb (λ (e : Edge). elem e.target nodes) (edges_of cs)
          ∙ sym (targets_known-all nodes (edges_of cs))
          ∙ targets_known-edges_of nodes cs (λ n m. elem-node n cs ∙ m);
      sources = λ a n e.
          elem-node a cs
          ∙ (edge_in-edges_of (ids cs) cs a n sound.links
              (sym (edge_in-sort_by (edges_of cs) a n) ∙ e)).0;
    }

relabel :
    (before before' : Relation)
    → ((a n : String) → before' a n ≡ true → before a n ≡ true)
    → (newest : List String) → IsTopological before newest
    → IsTopological before' newest
relabel before before' h [] t = tt
relabel before before' h (n ∷ earlier) t =
    (λ a m. t.0 a (h a n m), relabel before before' h earlier t.1)

-- For every corpus that validates, `build_graph` returns a graph whose nodes are the ids of the
-- Contracts and whose edges lead from each prerequisite to its Contract, `_topology` returns with its flag set, and its order holds each Contract once, after
-- its prerequisites.
pub valid_corpus-has_topology :
    (files : List (String × FileRead))
    → valid (validate_contracts files) ≡ true
    → (graph : Graph) × (t : Topology) × (build_graph (validate_contracts files) ≡ ok graph)
      × ((k : String) → elem k (keys graph.nodes) ≡ elem k (ids (documents files)))
      × ((a n : String)
          → edge_in graph.edges a n
            ≡ any (λ (c : Contract). elem a c.prerequisites && n == c.id) (documents files))
      × (topology graph ≡ ok t)
      × (t.acyclic ≡ true)
      × IsTopologicalOrder graph t.order
unfolding build_graph dependencies_of
valid_corpus-has_topology files h =
    let cs = documents files in
    let (sound, same) = valid-IsSound files h in
    let (newest, ordered, covers) = cycle_nodes_order cs sound.acyclic in
    let graph = graph_of cs in
    let (t, ran, flag, order) =
      topology_accepts graph (graph_of-IsGraph files sound) newest
        (relabel (DependsOn (dependencies_of cs)) (edge_in graph.edges)
          (λ a n e.
            lookup_list-add_dependencies a n cs [] sound.distinct_ids
              (sym (edge_in-sort_by (edges_of cs) a n) ∙ e))
          newest ordered)
        (λ n m. covers n (elem-keys-add_dependencies n cs [] ∙ ground (arith, elem-node n cs))) in
    (
      graph,
      t,
      rw (h, build_graph) (ap (λ c. ok (graph_of c)) same),
      λ k. elem-node k cs,
      λ a n. edge_in-sort_by (edges_of cs) a n ∙ edge_in-lists cs a n,
      ran,
      flag,
      order,
    )
