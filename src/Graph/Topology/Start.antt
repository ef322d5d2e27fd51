-- ===== src/Graph/Topology/Start.antt =====
-- The counts and the queue with which Kahn's algorithm starts.
use os_bench.Common.{
  suc, String, ◌≡◌, refl, ap, ◌∙◌, Bool, true, false, ◌||◌, List, [], ◌∷◌, arith, eq_iff, elem,
  elem-append, nodup, Dict, keys, lookup, insert, lookup-insert, elem-keys-insert,
  nodup-keys-insert, nodup-keys-push, push, lookup_list, lookup_list-push, Option, none, some,
}
use os_bench.Common.Int.{ℤ, pos, increment, is_zero}
use os_bench.Common.Result.{ok}
use os_bench.Graph.Adjacency.{neighbors}
use os_bench.Graph.Topology.{Edge, Indexed, index_edges, zeros, zero_ids}
use os_bench.Graph.Topology.Counting.{blocked, blocked-push}
use os_bench.Graph.Topology.Spec.{edge_in, targets_known}

-- Every node has a count, that of the edges into it.
pub record IsIndexed (nodes : List String) (s : Indexed) : Type 0 where
  pub counts :
      (n : String)
      → elem n nodes ≡ true
      → lookup n s.indegree ≡ some (pos (blocked n s.adjacency []))
  pub same_keys : (n : String) → elem n (keys s.indegree) ≡ elem n nodes
  pub distinct : nodup (keys s.indegree) ≡ true
  pub sources : nodup (keys s.adjacency) ≡ true

abbrev after_edge : Edge → ℤ → Indexed → Indexed
after_edge e k s = record {
  indegree = insert e.target (increment k) s.indegree;
  adjacency = push e.source e.target s.adjacency;
}

after_edge-IsIndexed :
    (nodes : List String) (e : Edge) (s : Indexed)
    → elem e.target nodes ≡ true
    → IsIndexed nodes s
    → IsIndexed nodes (after_edge e (pos (blocked e.target s.adjacency [])) s)
after_edge-IsIndexed nodes e s known h = record {
  counts = λ n k. ground (
    arith,
    lookup-insert e.target n (pos (suc (blocked e.target s.adjacency []))) s.indegree,
    blocked-push n e.source e.target s.adjacency,
    h.counts n,
    eq_iff n e.target,
  );
  same_keys = λ n. ground (
    arith,
    elem-keys-insert e.target n (pos (suc (blocked e.target s.adjacency []))) s.indegree,
    h.same_keys n,
    eq_iff n e.target,
  );
  distinct = nodup-keys-insert e.target _ s.indegree h.distinct;
  sources = nodup-keys-push e.source e.target s.adjacency h.sources;
}

-- The loop over the edges returns, and its adjacency has exactly the edges of the document.
pub index_edges-IsIndexed :
    (nodes : List String) (es : List Edge) (s : Indexed)
    → targets_known nodes es ≡ true
    → IsIndexed nodes s
    → (t : Indexed) × (index_edges es s ≡ ok t)
      × IsIndexed nodes t
      × ((a n : String)
          → elem n (neighbors t.adjacency a) ≡ (edge_in es a n || elem n (neighbors s.adjacency a)))
unfolding index_edges
index_edges-IsIndexed nodes [] s known h = (s, refl, h, λ a n. refl)
index_edges-IsIndexed nodes (e ∷ es) s known h =
    let k : elem e.target nodes ≡ true = ground arith in
    let next = after_edge e (pos (blocked e.target s.adjacency [])) s in
    let (t, runs, inv, edges) =
      index_edges-IsIndexed nodes es next (ground arith) (after_edge-IsIndexed nodes e s k h) in
    (
      t,
      rw (h.counts e.target k, index_edges) runs,
      inv,
      λ a n. ground (
        arith,
        edges a n,
        lookup_list-push e.source a e.target s.adjacency,
        elem-append n (lookup_list a s.adjacency) (e.target ∷ []),
      ),
    )

zeros-keys : (ks : List String) → keys (zeros ks) ≡ ks
unfolding zeros
zeros-keys [] = refl
zeros-keys (k ∷ ks) = ap (◌∷◌ k) (zeros-keys ks)

zeros-lookup :
    (n : String) (ks : List String) → elem n ks ≡ true → lookup n (zeros ks) ≡ some (pos 0)
unfolding zeros
zeros-lookup n [] h = absurd (cc h)
zeros-lookup n (k ∷ ks) h = ground (arith, zeros-lookup n ks)

pub zeros-IsIndexed :
    (nodes : List String)
    → nodup nodes ≡ true
    → IsIndexed nodes (record { indegree = zeros nodes; adjacency = [] })
zeros-IsIndexed nodes d = record {
  counts = λ n k. zeros-lookup n nodes k;
  same_keys = λ n. ap (elem n) (zeros-keys nodes);
  distinct = ap nodup (zeros-keys nodes) ∙ d;
  sources = refl;
}

abbrev pub zero_at : Option ℤ → Bool
zero_at none = false
zero_at (some v) = is_zero v

pub elem-zero_ids_new :
    (n : String) (d : Dict ℤ) → elem n (keys d) ≡ false → elem n (zero_ids d) ≡ false
unfolding zero_ids
elem-zero_ids_new n [] h = refl
elem-zero_ids_new n ((k, v) ∷ rest) h = ground (arith, elem-zero_ids_new n rest)

pub elem-zero_ids :
    (n : String) (d : Dict ℤ) → nodup (keys d) ≡ true → elem n (zero_ids d) ≡ zero_at (lookup n d)
unfolding zero_ids
elem-zero_ids n [] h = refl
elem-zero_ids n ((k, v) ∷ rest) h =
    ground (arith, elem-zero_ids n rest, elem-zero_ids_new n rest, eq_iff n k)

pub nodup-zero_ids : (d : Dict ℤ) → nodup (keys d) ≡ true → nodup (zero_ids d) ≡ true
unfolding zero_ids
nodup-zero_ids [] h = refl
nodup-zero_ids ((k, v) ∷ rest) h = ground (arith, nodup-zero_ids rest, elem-zero_ids_new k rest)
