-- ===== src/Graph/Closure.antt =====
-- `_closure` of src/osbench/graph.py: breadth-first search with a queue and a set.
pub mod Fuel
pub mod Correct
use os_bench.Common.{
  ℕ, zero, suc, ◌+◌, ◌≤◌, String, ◌≡◌, refl, ap, ◌∙◌, ◌⊎◌, inl, inr, ◌↔◌, Bool, true, false, ◌&&◌,
  ◌||◌, not, List, [], ◌∷◌, ◌++◌, arith, ◌==◌, eq_iff, eq_refl, if◌then◌else◌, Bool-cases,
  List-cases, elem, elem-append, nodup, length, length-append, lookup_list,
}
use os_bench.Common.Sort.{sorted, elem-sorted, nodup-sorted}
use os_bench.Graph.Adjacency.{Adjacency, neighbors}

-- `output` is a set: the order in which values were added is not observed.
pub record Search : Type 0 where
  pub output : List String
  pub queue : List String

-- one round: `value = queue.popleft()`, then the body
unfoldable pub visit : Adjacency → String → List String → List String → Search
visit adjacency value output rest =
    if elem value output
    then record { output = output; queue = rest }
    else record { output = value ∷ output; queue = rest ++ neighbors adjacency value }

-- `while queue:`; a search whose fuel has run out keeps its queue
unfoldable pub search_loop : ℕ → Adjacency → Search → Search
search_loop zero adjacency s = s
search_loop (suc fuel) adjacency s = elim s.queue [
  | [] ↦ s
  | value ∷ rest ↦ search_loop fuel adjacency (visit adjacency value s.output rest)
]

-- the values in the adjacency: every value is queued once by its source
abbrev pub edge_count : Adjacency → ℕ
edge_count [] = 0
edge_count ((key, values) ∷ rest) = length values + edge_count rest

abbrev pub search_of : List String → Search
search_of start = record { output = []; queue = start }

unfoldable pub closure : List String → Adjacency → List String
unfolding search_loop visit
closure start adjacency =
    sorted (search_loop (length start + edge_count adjacency) adjacency (search_of start)).output

-- The walks from `start`.
pub data Reach (adjacency : Adjacency) (start : List String) : String → Type 0 where
  here : {v : String} → elem v start ≡ true → Reach adjacency start v
  step :
      {u v : String}
      → Reach adjacency start u
      → elem v (neighbors adjacency u) ≡ true
      → Reach adjacency start v
