-- ===== src/Contracts/Cycles/Decides.antt =====
-- The search decides whether the prerequisites have a cycle.
use os_bench.Common.{
  suc, String, ◌≡◌, ◌≢◌, refl, ap, ◌∙◌, ◌↔◌, true, List, [], elem, keys, length, inl, inr,
  Bool-cases, lookup_list-missing,
}
use os_bench.Common.Sort.{sorted, elem-sorted}
use os_bench.Precedence.{IsTopological, IsTopological-acyclic, Walk, one, more}
use os_bench.Contracts.Model.{Contract}
use os_bench.Contracts.Cycles.{
  Dependencies, Dfs, continue, cycle, visit, start, returned, cycle_search, dependencies_of,
  cycle_nodes,
}
use os_bench.Contracts.Cycles.Clear.{DependsOn, Outcome-cases, visit-Keeps, visit_all-Keeps}
use os_bench.Contracts.Cycles.Found.{IsCycle, chained-Walk, visit_all-IsCycle, visit-IsCycle}
use os_bench.Contracts.Cycles.Depth.{cycle_search_returns}

module _ (dependencies : Dependencies) where
  -- Without a cycle the visited nodes are a topological order that holds every key.
  pub clear-IsTopological :
      (t : Dfs)
      → cycle_search dependencies ≡ continue t
      → IsTopological (DependsOn dependencies) t.visited
        × ((k : String) → elem k (keys dependencies) ≡ true → elem k t.visited ≡ true)
  unfolding cycle_search
  clear-IsTopological t h =
      let fuel = suc (suc (length (keys dependencies))) in
      let (kept, all_visited) =
        visit_all-Keeps (DependsOn dependencies) (visit fuel dependencies)
          (visit-Keeps dependencies fuel) (sorted (keys dependencies)) start t h in
      (kept.ordered tt, λ k m. all_visited k (elem-sorted k (keys dependencies) ∙ m))

  found-IsCycle : (c : List String) → cycle_search dependencies ≡ cycle c → IsCycle dependencies c
  unfolding cycle_search
  found-IsCycle c h =
      let fuel = suc (suc (length (keys dependencies))) in
      visit_all-IsCycle dependencies (visit fuel dependencies) (visit-Keeps dependencies fuel)
        (visit-IsCycle dependencies fuel) (sorted (keys dependencies)) start c
        (λ d m. (refl, λ v e. absurd (cc e))) h

  -- the end of a walk lists a prerequisite, so it is a key
  has_key : (u w : String) → DependsOn dependencies u w ≡ true → elem w (keys dependencies) ≡ true
  has_key u w e = elim (Bool-cases (elem w (keys dependencies))) [
    | inl known ↦ known
    | inr leaf ↦ absurd (cc (rw (lookup_list-missing w dependencies leaf) at e))
  ]

  Walk-key : (v w : String) → Walk (DependsOn dependencies) v w → elem w (keys dependencies) ≡ true
  Walk-key v w (one e) = has_key v w e
  Walk-key v w (more {b} p e) = has_key b w e

-- A returned list is a cycle: it comes back to its first node, and each node lists the next as a
-- prerequisite.
pub cycle_nodes-IsCycle :
    (contracts : List Contract)
    → cycle_nodes contracts ≢ []
    → IsCycle (dependencies_of contracts) (cycle_nodes contracts)
unfolding cycle_nodes
cycle_nodes-IsCycle contracts h = elim (Outcome-cases (cycle_search (dependencies_of contracts))) [
  | inl (t, e) ↦ absurd (h (ap returned e))
  | inr (inl (c, e)) ↦ rw e (found-IsCycle (dependencies_of contracts) c e)
  | inr (inr e) ↦ absurd (cycle_search_returns (dependencies_of contracts) e)
]

clear_acyclic :
    (contracts : List Contract) (t : Dfs)
    → cycle_search (dependencies_of contracts) ≡ continue t
    → (v : String) → ¬ Walk (DependsOn (dependencies_of contracts)) v v
clear_acyclic contracts t e v w =
    let deps = dependencies_of contracts in
    let (ordered, covers) = clear-IsTopological deps t e in
    IsTopological-acyclic t.visited ordered v (covers v (Walk-key deps v v w)) w

found-Walk :
    (contracts : List Contract) (c : List String)
    → IsCycle (dependencies_of contracts) c
    → (v : String) × Walk (DependsOn (dependencies_of contracts)) v v
found-Walk contracts c (v, middle, e, linked) =
    (v, chained-Walk (dependencies_of contracts) v v middle (rw e at linked))

IsCycle-ne-nil :
    (contracts : List Contract) (c : List String) → IsCycle (dependencies_of contracts) c → c ≢ []
IsCycle-ne-nil contracts c (v, middle, e, linked) h = cc

-- The list is empty exactly if no Contract is among its own prerequisites, directly or not.
pub cycle_nodes_decides :
    (contracts : List Contract)
    → (cycle_nodes contracts ≡ [])
      ↔ ((v : String) → ¬ Walk (DependsOn (dependencies_of contracts)) v v)
unfolding cycle_nodes
cycle_nodes_decides contracts = elim (Outcome-cases (cycle_search (dependencies_of contracts))) [
  | inl (t, e) ↦ (λ _. clear_acyclic contracts t e, λ _. rw e)
  | inr (inl (c, e)) ↦
      let found = found-IsCycle (dependencies_of contracts) c e in
      let (v, w) = found-Walk contracts c found in
      (λ h. absurd (IsCycle-ne-nil contracts c found (rw e at h)), λ never. absurd (never v w))
  | inr (inr e) ↦ absurd (cycle_search_returns (dependencies_of contracts) e)
]

-- A corpus without cycles has its Contracts in a topological order.
pub cycle_nodes_order :
    (contracts : List Contract)
    → cycle_nodes contracts ≡ []
    → (newest : List String) × IsTopological (DependsOn (dependencies_of contracts)) newest
      × ((k : String) → elem k (keys (dependencies_of contracts)) ≡ true → elem k newest ≡ true)
unfolding cycle_nodes
cycle_nodes_order contracts h = elim (Outcome-cases (cycle_search (dependencies_of contracts))) [
  | inl (t, e) ↦
      let (ordered, covers) = clear-IsTopological (dependencies_of contracts) t e in
      (t.visited, ordered, covers)
  | inr (inl (c, e)) ↦
      absurd
        (IsCycle-ne-nil contracts c (found-IsCycle (dependencies_of contracts) c e) (rw e at h))
  | inr (inr e) ↦ absurd (cycle_search_returns (dependencies_of contracts) e)
]
