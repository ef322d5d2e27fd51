-- ===== src/Graph/Topology/Built.antt =====
-- The graph document of a sound corpus: its nodes, its edges, and the relation they keep.
use os_bench.Common.{
  String, ◌≡◌, refl, ap, ◌∙◌, sym, true, false, ◌&&◌, ◌||◌, List, [], ◌∷◌, ◌++◌, arith, ◌==◌,
  eq_iff, eq_refl, elem, nodup, nodup-keys-insert, elem-keys-insert, Dict, keys, insert,
  lookup_list, all, any, if◌then◌else◌, Bool-cases, inl, inr,
}
use os_bench.Common.Sort.{sort_by, any-sort_by}
use os_bench.Contracts.Model.{Contract}
use os_bench.Contracts.Cycles.{Dependencies, add_dependencies}
use os_bench.Contracts.Validate.{ids}
use os_bench.Contracts.Validate.Corpus.{refers, linked}
use os_bench.Graph.Topology.{Node, Edge, node_of, add_nodes, edges_into, edges_of, edge_leb}
use os_bench.Graph.Topology.Spec.{edge_in, targets_known}

pub elem-keys-add_nodes :
    (k : String) (cs : List Contract) (nodes : Dict Node)
    → elem k (keys (add_nodes cs nodes)) ≡ (elem k (ids cs) || elem k (keys nodes))
unfolding add_nodes
elem-keys-add_nodes k [] nodes = refl
elem-keys-add_nodes k (c ∷ cs) nodes =
    elem-keys-add_nodes k cs (insert c.id (node_of c) nodes)
    ∙ ground (arith, elem-keys-insert {V = Node} c.id k (node_of c) nodes)

pub nodup-keys-add_nodes :
    (cs : List Contract) (nodes : Dict Node)
    → nodup (keys nodes) ≡ true
    → nodup (keys (add_nodes cs nodes)) ≡ true
unfolding add_nodes
nodup-keys-add_nodes [] nodes h = h
nodup-keys-add_nodes (c ∷ cs) nodes h =
    nodup-keys-add_nodes cs _ (nodup-keys-insert {V = Node} c.id _ nodes h)

edge_in-any :
    (es : List Edge) (a n : String)
    → edge_in es a n ≡ any (λ (e : Edge). a == e.source && n == e.target) es
edge_in-any [] a n = refl
edge_in-any (e ∷ es) a n = ap (λ b. (a == e.source && n == e.target) || b) (edge_in-any es a n)

-- Sorting keeps the edges.
pub edge_in-sort_by :
    (es : List Edge) (a n : String) → edge_in (sort_by edge_leb es) a n ≡ edge_in es a n
edge_in-sort_by es a n =
    edge_in-any (sort_by edge_leb es) a n ∙ any-sort_by edge_leb _ es ∙ sym (edge_in-any es a n)

pub targets_known-all :
    (nodes : List String) (es : List Edge)
    → targets_known nodes es ≡ all (λ (e : Edge). elem e.target nodes) es
targets_known-all nodes [] = refl
targets_known-all nodes (e ∷ es) = ap (λ b. elem e.target nodes && b) (targets_known-all nodes es)

edge_in-append :
    (xs ys : List Edge) (a n : String) → edge_in (xs ++ ys) a n ≡ (edge_in xs a n || edge_in ys a n)
edge_in-append [] ys a n = refl
edge_in-append (x ∷ xs) ys a n = ground (arith, edge_in-append xs ys a n)

edge_in-edges_into :
    (identifier : String) (ds : List String) (a n : String)
    → edge_in (edges_into identifier ds) a n ≡ (elem a ds && n == identifier)
unfolding edges_into
edge_in-edges_into i [] a n = refl
edge_in-edges_into i (d ∷ ds) a n = ground (arith, edge_in-edges_into i ds a n)

refers-elem :
    (known : List String) (i : String) (ds : List String) (a : String)
    → refers known i ds ≡ true
    → elem a ds ≡ true
    → elem a known ≡ true
refers-elem known i [] a h m = absurd (cc m)
refers-elem known i (d ∷ ds) a h m = ground (arith, refers-elem known i ds a, eq_iff a d)

pub edge_in-edges_of :
    (known : List String) (cs : List Contract) (a n : String)
    → all (linked known) cs ≡ true
    → edge_in (edges_of cs) a n ≡ true
    → (elem a known ≡ true) × (elem n (ids cs) ≡ true)
unfolding edges_of
edge_in-edges_of known [] a n l h = absurd (cc h)
edge_in-edges_of known (c ∷ cs) a n l h =
    let split = edge_in-append (edges_into c.id c.prerequisites) (edges_of cs) a n in
    let first = edge_in-edges_into c.id c.prerequisites a n in
    elim (Bool-cases (edge_in (edges_of cs) a n)) [
      | inl later ↦
          let (x, y) = edge_in-edges_of known cs a n (ground arith) later in (x, ground arith)
      | inr here ↦ (ground (arith, refers-elem known c.id c.prerequisites a), ground arith)
    ]

pub targets_known-edges_of :
    (known : List String) (cs : List Contract)
    → ((n : String) → elem n (ids cs) ≡ true → elem n known ≡ true)
    → targets_known known (edges_of cs) ≡ true
unfolding edges_of edges_into
targets_known-edges_of known [] h = refl
targets_known-edges_of known (c ∷ cs) h =
    let others = targets_known-edges_of known cs (λ n m. h n (ground arith)) in
    into c.prerequisites (h c.id (ground (arith, eq_refl c.id))) others
  where
    into :
        (ds : List String)
        → elem c.id known ≡ true
        → targets_known known (edges_of cs) ≡ true
        → targets_known known (edges_into c.id ds ++ edges_of cs) ≡ true
    into [] k t = t
    into (d ∷ ds) k t = ground (arith, into ds k t)

lookup_list-insert :
    (k n : String) (ds : List String) (deps : Dependencies)
    → lookup_list n (insert k ds deps) ≡ (if n == k then ds else lookup_list n deps)
lookup_list-insert k n ds [] = refl
lookup_list-insert k n ds ((i, w) ∷ deps) =
    ground (arith, lookup_list-insert k n ds deps, eq_iff k i, eq_iff n i, eq_iff n k)

lookup_list-add_dependencies_new :
    (n : String) (cs : List Contract) (deps : Dependencies)
    → elem n (ids cs) ≡ false
    → lookup_list n (add_dependencies cs deps) ≡ lookup_list n deps
unfolding add_dependencies
lookup_list-add_dependencies_new n [] deps h = refl
lookup_list-add_dependencies_new n (c ∷ cs) deps h =
    lookup_list-add_dependencies_new n cs (insert c.id c.prerequisites deps) (ground arith)
    ∙ ground (arith, lookup_list-insert c.id n c.prerequisites deps)

elem-edges_of :
    (a n : String) (cs : List Contract) → edge_in (edges_of cs) a n ≡ true → elem n (ids cs) ≡ true
unfolding edges_of
elem-edges_of a n [] h = absurd (cc h)
elem-edges_of a n (c ∷ cs) h = ground (
  arith,
  edge_in-append (edges_into c.id c.prerequisites) (edges_of cs) a n,
  edge_in-edges_into c.id c.prerequisites a n,
  elem-edges_of a n cs,
)

pub lookup_list-add_dependencies :
    (a n : String) (cs : List Contract) (deps : Dependencies)
    → nodup (ids cs) ≡ true
    → edge_in (edges_of cs) a n ≡ true
    → elem a (lookup_list n (add_dependencies cs deps)) ≡ true
unfolding edges_of add_dependencies
lookup_list-add_dependencies a n [] deps d h = absurd (cc h)
lookup_list-add_dependencies a n (c ∷ cs) deps d h =
    let next = insert c.id c.prerequisites deps in
    let split = edge_in-append (edges_into c.id c.prerequisites) (edges_of cs) a n in
    let first = edge_in-edges_into c.id c.prerequisites a n in
    elim (Bool-cases (edge_in (edges_of cs) a n)) [
      | inl later ↦ lookup_list-add_dependencies a n cs next (ground arith) later
      | inr here ↦
          let same : n ≡ c.id = ground (arith, eq_iff n c.id) in
          let fresh : elem n (ids cs) ≡ false = ground (arith, ap (λ x. elem x (ids cs)) same) in
          ap (elem a) (lookup_list-add_dependencies_new n cs next fresh)
          ∙ ground (arith, lookup_list-insert c.id n c.prerequisites deps)
    ]

pub elem-keys-add_dependencies :
    (k : String) (cs : List Contract) (deps : Dependencies)
    → elem k (keys (add_dependencies cs deps)) ≡ (elem k (ids cs) || elem k (keys deps))
unfolding add_dependencies
elem-keys-add_dependencies k [] deps = refl
elem-keys-add_dependencies k (c ∷ cs) deps =
    elem-keys-add_dependencies k cs (insert c.id c.prerequisites deps)
    ∙ ground (arith, elem-keys-insert c.id k c.prerequisites deps)

-- The document has an edge for each prerequisite of each Contract, and no other.
pub edge_in-lists :
    (cs : List Contract) (a n : String)
    → edge_in (edges_of cs) a n ≡ any (λ (c : Contract). elem a c.prerequisites && n == c.id) cs
unfolding edges_of
edge_in-lists [] a n = refl
edge_in-lists (c ∷ cs) a n =
    edge_in-append (edges_into c.id c.prerequisites) (edges_of cs) a n
    ∙ ap (λ b. b || edge_in (edges_of cs) a n) (edge_in-edges_into c.id c.prerequisites a n)
    ∙ ap (λ b. (elem a c.prerequisites && n == c.id) || b) (edge_in-lists cs a n)
