-- ===== src/Graph/Closure/Fuel.antt =====
-- The search ends: every value of the adjacency is queued at most once by its source.
use os_bench.Common.{
  ℕ, zero, suc, ◌+◌, ◌≤◌, String, ◌≡◌, refl, ap, inl, inr, false, List, [], ◌∷◌, arith, eq_iff,
  if◌then◌else◌, List-cases, elem, length, length-append,
}
use os_bench.Graph.Adjacency.{Adjacency, neighbors}
use os_bench.Graph.Closure.{Search, visit, search_loop, edge_count, search_of}

-- The values that are still to be queued.
abbrev pending : Adjacency → List String → ℕ
pending [] output = 0
pending ((key, values) ∷ rest) output =
    (if elem key output then 0 else length values) + pending rest output

pending-le : (g : Adjacency) (v : String) (out : List String) → pending g (v ∷ out) ≤ pending g out
pending-le [] v out = omega arith
pending-le ((key, values) ∷ rest) v out = ground (arith, pending-le rest v out)

pending-visit :
    (g : Adjacency) (v : String) (out : List String)
    → elem v out ≡ false
    → pending g (v ∷ out) + length (neighbors g v) ≤ pending g out
pending-visit [] v out h = omega arith
pending-visit ((key, values) ∷ rest) v out h =
    ground (arith, pending-visit rest v out, pending-le rest v out, eq_iff v key, eq_iff key v)

pending-nil : (g : Adjacency) → pending g [] ≡ edge_count g
pending-nil [] = refl
pending-nil ((key, values) ∷ rest) = omega (arith, pending-nil rest)

abbrev work : Adjacency → Search → ℕ
work g s = length s.queue + pending g s.output

work-visit :
    (g : Adjacency) (v : String) (out rest : List String)
    → suc (work g (visit g v out rest)) ≤ suc (length rest) + pending g out
unfolding visit
work-visit g v out rest = ground (arith, pending-visit g v out, length-append rest (neighbors g v))

-- With fuel for its work the search empties its queue.
search_loop_drained :
    (g : Adjacency) (fuel : ℕ) (s : Search) → work g s ≤ fuel → (search_loop fuel g s).queue ≡ []
unfolding search_loop
search_loop_drained g zero s h = elim (List-cases s.queue) [
  | inl e ↦ e
  | inr (v, rest, e) ↦ absurd (omega (arith, ap length e))
]
search_loop_drained g (suc fuel) s h = elim (List-cases s.queue) [
  | inl e ↦ rw (e, search_loop) e
  | inr (v, rest, e) ↦
      rw (e, search_loop)
        (search_loop_drained g fuel (visit g v s.output rest)
          (omega (arith, work-visit g v s.output rest, ap length e)))
]

-- The fuel of `closure` suffices: its queue is empty at the end.
pub closure_drained :
    (start : List String) (g : Adjacency)
    → (search_loop (length start + edge_count g) g (search_of start)).queue ≡ []
closure_drained start g =
    search_loop_drained g (length start + edge_count g) (search_of start)
      (omega (arith, pending-nil g))
