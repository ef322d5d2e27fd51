-- ===== src/Graph/Queries/Duality.antt =====
-- What unlocks and what is required are the same relation read in two directions.
use os_bench.Common.{
  String, ◌≡◌, ◌∙◌, sym, ◌↔◌, Bool, true, false, List, elem, Dict, keys, Bool-eq_of_iff,
}
use os_bench.Common.Result.{ok}
use os_bench.Precedence.{Walk, Walk-cons, one, more}
use os_bench.Contracts.Model.{Contract}
use os_bench.Graph.Adjacency.{
  neighbors, adjacency_of, has_edge, has_edge-reverse, neighbors-adjacency_of,
}
use os_bench.Graph.Closure.{closure, Reach, here, step}
use os_bench.Graph.Closure.Correct.{closure_correct}
use os_bench.Graph.Queries.{prerequisites, unlocked_by}

-- `a` is a listed prerequisite of `n`.
abbrev pub requires : Dict Contract → String → String → Bool
requires contracts a n = has_edge false contracts a n

module _ (contracts : Dict Contract) where
  edge_forward :
      (a n : String) → elem n (neighbors (adjacency_of false contracts) a) ≡ requires contracts a n
  edge_forward a n = neighbors-adjacency_of false contracts a n

  edge_back :
      (a n : String) → elem a (neighbors (adjacency_of true contracts) n) ≡ requires contracts a n
  edge_back a n = neighbors-adjacency_of true contracts n a ∙ has_edge-reverse contracts n a

  Reach-Walk_forward :
      (a v : String)
      → Reach (adjacency_of false contracts) (neighbors (adjacency_of false contracts) a) v
      → Walk (requires contracts) a v
  Reach-Walk_forward a v (here m) = one (sym (edge_forward a v) ∙ m)
  Reach-Walk_forward a v (step {u} p m) =
      more (Reach-Walk_forward a u p) (sym (edge_forward u v) ∙ m)

  Walk-Reach_forward :
      (a v : String)
      → Walk (requires contracts) a v
      → Reach (adjacency_of false contracts) (neighbors (adjacency_of false contracts) a) v
  Walk-Reach_forward a v (one e) = here (edge_forward a v ∙ e)
  Walk-Reach_forward a v (more {b} w e) = step (Walk-Reach_forward a b w) (edge_forward b v ∙ e)

  Reach-Walk_back :
      (n v : String)
      → Reach (adjacency_of true contracts) (neighbors (adjacency_of true contracts) n) v
      → Walk (requires contracts) v n
  Reach-Walk_back n v (here m) = one (sym (edge_back v n) ∙ m)
  Reach-Walk_back n v (step {u} p m) = Walk-cons v (sym (edge_back v u) ∙ m) (Reach-Walk_back n u p)

  extend_back :
      (n u v : String)
      → requires contracts v u ≡ true
      → Reach (adjacency_of true contracts) (neighbors (adjacency_of true contracts) n) u
      → Reach (adjacency_of true contracts) (neighbors (adjacency_of true contracts) n) v
  extend_back n u v e p = step p (edge_back v u ∙ e)

  concat_back :
      (n v u : String)
      → Walk (requires contracts) v u
      → Reach (adjacency_of true contracts) (neighbors (adjacency_of true contracts) n) u
      → Reach (adjacency_of true contracts) (neighbors (adjacency_of true contracts) n) v
  concat_back n v u (one e) p = extend_back n u v e p
  concat_back n v u (more {b} w e) p = concat_back n v b w (extend_back n u b e p)

  Walk-Reach_back :
      (n v : String)
      → Walk (requires contracts) v n
      → Reach (adjacency_of true contracts) (neighbors (adjacency_of true contracts) n) v
  Walk-Reach_back n v (one e) = here (edge_back v n ∙ e)
  Walk-Reach_back n v (more {b} w e) = concat_back n v b w (here (edge_back b n ∙ e))

  module _ (n : String) (known : elem n (keys contracts) ≡ true) where
    prerequisites_returns :
        prerequisites contracts n true
        ≡ ok (closure (neighbors (adjacency_of true contracts) n) (adjacency_of true contracts))
    unfolding prerequisites
    prerequisites_returns = rw known

    unlocked_by_returns :
        unlocked_by contracts n true
        ≡ ok (closure (neighbors (adjacency_of false contracts) n) (adjacency_of false contracts))
    unfolding unlocked_by
    unlocked_by_returns = rw known

-- For a known Contract the transitive prerequisites are returned, and they are exactly the ids
-- from which a chain of listed prerequisites leads to it.
pub prerequisites_correct :
    (contracts : Dict Contract) (n : String)
    → elem n (keys contracts) ≡ true
    → (found : List String) × (prerequisites contracts n true ≡ ok found)
      × ((v : String) → (elem v found ≡ true) ↔ Walk (requires contracts) v n)
prerequisites_correct contracts n known =
    let g = adjacency_of true contracts in
    (
      closure (neighbors g n) g,
      prerequisites_returns contracts n known,
      λ v.
          let (reached, listed) = closure_correct (neighbors g n) g v in
          (
            λ m. Reach-Walk_back contracts n v (reached m),
            λ w. listed (Walk-Reach_back contracts n v w),
          ),
    )

-- For known Contracts, `b` is among what `a` unlocks transitively exactly if `a` is among the
-- transitive prerequisites of `b`; both queries return.
pub unlocked_by-prerequisites :
    (contracts : Dict Contract) (a b : String)
    → elem a (keys contracts) ≡ true
    → elem b (keys contracts) ≡ true
    → (unlocked : List String) × (required : List String) × (unlocked_by contracts a true
        ≡ ok unlocked)
      × (prerequisites contracts b true ≡ ok required)
      × (elem b unlocked ≡ elem a required)
unlocked_by-prerequisites contracts a b known_a known_b =
    let g = adjacency_of false contracts in
    let r = adjacency_of true contracts in
    let (reached, listed) = closure_correct (neighbors g a) g b in
    let (reached', listed') = closure_correct (neighbors r b) r a in
    (
      closure (neighbors g a) g,
      closure (neighbors r b) r,
      unlocked_by_returns contracts a known_a,
      prerequisites_returns contracts b known_b,
      Bool-eq_of_iff _ _
          (λ m.
            listed' (Walk-Reach_back contracts b a (Reach-Walk_forward contracts a b (reached m))))
          (λ m.
            listed (Walk-Reach_forward contracts a b (Reach-Walk_back contracts b a (reached' m)))),
    )
