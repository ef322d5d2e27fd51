-- ===== src/Graph/Topology/Correct.antt =====
-- `_topology` decides whether the graph has a topological order, and returns one.
use mathlib.Core.Path.{subst}
use mathlib.Core.List.{append-nil}
use os_bench.Common.{
  String, ◌≡◌, refl, ap, ◌∙◌, sym, ◌↔◌, true, false, List, [], ◌∷◌, ◌++◌, arith, eq_iff, elem,
  nodup, nodup-length, nodup_covers, keys, lookup, some, Bool-cases, Bool-eq_of_iff, inl, inr,
  nat_eq, nat_eq_iff, length,
}
use os_bench.Common.Int.{pos}
use os_bench.Common.Result.{ok}
use os_bench.Common.Sort.{sorted, elem-sorted, nodup-sorted}
use os_bench.Precedence.{IsTopological}
use os_bench.Graph.Adjacency.{neighbors}
use os_bench.Graph.Topology.{Graph, Edge, Indexed, Sweep, Topology, zeros, zero_ids, topology}
use os_bench.Graph.Topology.Counting.{blocked, blocked_none}
use os_bench.Graph.Topology.Spec.{
  edge_in, targets_known, IsOrdered, IsOrdered-IsTopological, IsTopologicalOrder,
}
use os_bench.Graph.Topology.Start.{
  IsIndexed, index_edges-IsIndexed, zeros-IsIndexed, elem-zero_ids, elem-zero_ids_new, zero_at,
  nodup-zero_ids,
}
use os_bench.Graph.Topology.Invariant.{Inv, before, sweep_loop-Inv}

-- A graph document as `build_graph` makes it from a valid corpus.
pub record IsGraph (graph : Graph) : Type 0 where
  pub distinct : nodup (keys graph.nodes) ≡ true
  pub targets : targets_known (keys graph.nodes) graph.edges ≡ true
  pub sources : (a n : String) → edge_in graph.edges a n ≡ true → elem a (keys graph.nodes) ≡ true

abbrev first_sweep : Indexed → Sweep
first_sweep s = record { indegree = s.indegree; queue = sorted (zero_ids s.indegree); order = [] }

first_sweep-Inv :
    (nodes : List String) (s : Indexed)
    → IsIndexed nodes s
    → Inv nodes s.adjacency [] (first_sweep s)
first_sweep-Inv nodes s h = record {
  counts = λ n k. h.counts n k ∙ ap (λ b. some (pos b)) (omega arith);
  ready = λ n k p. ground (arith, listed n, h.counts n);
  waiting = λ n k p. ground (arith, listed n, h.counts n);
  inside = λ n p.
      ground
        (arith, elem-sorted n (zero_ids s.indegree), elem-zero_ids_new n s.indegree, h.same_keys n);
  distinct = nodup-sorted (zero_ids s.indegree) (nodup-zero_ids s.indegree h.distinct);
  ordered = tt;
}
  where
    listed : (n : String) → elem n (sorted (zero_ids s.indegree)) ≡ zero_at (lookup n s.indegree)
    listed n = elem-sorted n (zero_ids s.indegree) ∙ elem-zero_ids n s.indegree h.distinct

module _ (graph : Graph) (good : IsGraph graph) where
  -- the run of `_topology`, with what is known of its loops
  abbrev Run : Topology → Type 0
  Run t =
      (indexed : Indexed) × (last : Sweep) × IsIndexed (keys graph.nodes) indexed
      × ((a n : String) → elem n (neighbors indexed.adjacency a) ≡ edge_in graph.edges a n)
      × Inv (keys graph.nodes) indexed.adjacency [] last
      × (last.queue ≡ [])
      × (t.order ≡ last.order)
      × (t.acyclic ≡ nat_eq (length last.order) (length (keys graph.nodes)))

  run : (t : Topology) × (topology graph ≡ ok t) × Run t
  unfolding topology
  run =
      let nodes = keys graph.nodes in
      let (indexed, ran, inv, edges) =
        index_edges-IsIndexed nodes graph.edges (record { indegree = zeros nodes; adjacency = [] })
          good.targets (zeros-IsIndexed nodes good.distinct) in
      let same : (a n : String) → elem n (neighbors indexed.adjacency a) ≡ edge_in graph.edges a n =
        λ a n. edges a n ∙ ground arith in
      let (last, swept, inv', done) =
        sweep_loop-Inv nodes indexed.adjacency inv.sources
          (λ a n e. edge_target graph.edges a n nodes good.targets (sym (same a n) ∙ e))
          (length nodes) (first_sweep indexed) (omega arith) (first_sweep-Inv nodes indexed inv) in
      (
        record {
          acyclic = nat_eq (length last.order) (length nodes);
          roots = sorted (zero_ids indexed.indegree);
          order = last.order;
        },
        rw ran (rw swept refl),
        (indexed, last, inv, same, inv', done, refl, refl),
      )
    where
      edge_target :
          (es : List Edge) (a n : String) (nodes : List String)
          → targets_known nodes es ≡ true
          → edge_in es a n ≡ true
          → elem n nodes ≡ true
      edge_target [] a n nodes h e = absurd (cc e)
      edge_target (x ∷ es) a n nodes h e =
          ground (arith, edge_target es a n nodes, eq_iff n x.target)

  -- what the order is when the flag is set
  sound : (t : Topology) → Run t → t.acyclic ≡ true → IsTopologicalOrder graph t.order
  sound t (indexed, last, inv, same, inv', done, e, flag) h =
      let distinct : nodup last.order ≡ true =
        ap nodup (sym (append-nil last.order) ∙ ap (λ q. last.order ++ q) (sym done))
        ∙ inv'.distinct in
      let within = λ (n : String) (m : elem n last.order ≡ true). inv'.inside n (ground arith) in
      let all_nodes =
        nodup_covers last.order (keys graph.nodes) distinct within
          (omega (arith, (nat_eq_iff _ _).0 (sym flag ∙ h))) in
      rw e (record {
        ordered = relabel [] last.order inv'.ordered;
        distinct = distinct;
        covers = λ n. Bool-eq_of_iff _ _ (within n) (all_nodes n);
      })
    where
      relabel :
          (seen xs : List String)
          → IsOrdered (before (keys graph.nodes) indexed.adjacency) seen xs
          → IsOrdered (edge_in graph.edges) seen xs
      relabel seen [] o = tt
      relabel seen (x ∷ xs) o = (λ a m. o.0 a (same a x ∙ m), relabel (x ∷ seen) xs o.1)

  -- a node is placed once every source of an edge into it is
  place :
      (t : Topology)
      → Run t
      → (n : String) → elem n (keys graph.nodes) ≡ true
      → ((a : String) → edge_in graph.edges a n ≡ true → elem a t.order ≡ true)
      → elem n t.order ≡ true
  place t (indexed, last, inv, same, inv', done, e, flag) n k prior =
      let none_left : blocked n indexed.adjacency last.order ≡ 0 =
        blocked_none n indexed.adjacency last.order
          (λ a m. ap (elem a) (sym e) ∙ prior a (sym (same a n) ∙ m)) inv.sources in
      let idle : elem n last.queue ≡ false = ap (elem n) done in
      ap (elem n) e ∙ elim (Bool-cases (elem n last.order)) [
        | inl found ↦ found
        | inr missing ↦ absurd (ground (arith, inv'.waiting n k))
      ]

  -- every node of a topological order is placed
  placed :
      (t : Topology)
      → Run t
      → (newest : List String) → IsTopological (edge_in graph.edges) newest
      → (n : String) → elem n newest ≡ true
      → elem n (keys graph.nodes) ≡ true
      → elem n t.order ≡ true
  placed t r [] o n m k = absurd (cc m)
  placed t r (x ∷ earlier) o n m k = elim (Bool-cases (elem n earlier)) [
    | inl old ↦ placed t r earlier o.1 n old k
    | inr new ↦
        place t r n k (λ a e. placed t r earlier o.1 a (o.0 a (first new a e)) (good.sources a n e))
  ]
    where
      first :
          elem n earlier ≡ false
          → (a : String) → edge_in graph.edges a n ≡ true
          → edge_in graph.edges a x ≡ true
      first new a e =
          let same_node : n ≡ x = ground (arith, eq_iff n x) in
          subst (λ y. edge_in graph.edges a y ≡ true) same_node e

  complete :
      (t : Topology)
      → Run t
      → (newest : List String) → IsTopological (edge_in graph.edges) newest
      → ((n : String) → elem n (keys graph.nodes) ≡ true → elem n newest ≡ true)
      → t.acyclic ≡ true
  complete t r newest topological covers =
      let (indexed, last, inv, edges, inv', done, e, flag) = r in
      let distinct : nodup last.order ≡ true =
        ap nodup (sym (append-nil last.order) ∙ ap (λ q. last.order ++ q) (sym done))
        ∙ inv'.distinct in
      let at_most =
        nodup-length last.order (keys graph.nodes) distinct (λ n m. inv'.inside n (ground arith)) in
      let at_least =
        nodup-length (keys graph.nodes) last.order good.distinct
          (λ n m. ap (elem n) (sym e) ∙ placed t r newest topological n (covers n m) m) in
      flag ∙ (nat_eq_iff _ _).1 (omega arith)

  from_order :
      (order : List String)
      → IsTopologicalOrder graph order
      → (newest : List String) × IsTopological (edge_in graph.edges) newest
        × ((n : String) → elem n (keys graph.nodes) ≡ true → elem n newest ≡ true)
  from_order order h =
      let (newest, topological, same) =
        IsOrdered-IsTopological (edge_in graph.edges) [] order tt h.ordered in
      (newest, topological, λ n m. ground (arith, same n, h.covers n))

-- On every graph document with distinct nodes whose edges join nodes, `_topology` returns, its
-- flag says whether a topological order exists, and where one does the order it returns is one.
pub topology_correct :
    (graph : Graph)
    → IsGraph graph
    → (t : Topology) × (topology graph ≡ ok t)
      × ((t.acyclic ≡ true) ↔ ((order : List String) × IsTopologicalOrder graph order))
      × (t.acyclic ≡ true → IsTopologicalOrder graph t.order)
topology_correct graph good =
    let (t, returns, r) = run graph good in
    (
      t,
      returns,
      (
        λ h. (t.order, sound graph good t r h),
        λ (order, h).
            let (newest, topological, covers) = from_order graph good order h in
            complete graph good t r newest topological covers,
      ),
      sound graph good t r,
    )

-- the same with the order given newest first
pub topology_accepts :
    (graph : Graph)
    → IsGraph graph
    → (newest : List String) → IsTopological (edge_in graph.edges) newest
    → ((n : String) → elem n (keys graph.nodes) ≡ true → elem n newest ≡ true)
    → (t : Topology) × (topology graph ≡ ok t)
      × (t.acyclic ≡ true)
      × IsTopologicalOrder graph t.order
topology_accepts graph good newest topological covers =
    let (t, returns, r) = run graph good in
    let flag = complete graph good t r newest topological covers in
    (t, returns, flag, sound graph good t r flag)
