-- ===== src/Contracts/Cycles/Depth.antt =====
-- The search never runs out of fuel: a path of it enters each key at most once.
use os_bench.Common.{
  ℕ, zero, suc, ◌+◌, ◌≤◌, String, ◌≡◌, ◌≢◌, refl, true, false, List, [], ◌∷◌, arith, eq_iff,
  if◌then◌else◌, elem, lookup_list, keys, length, Bool-cases, inl, inr, lookup_list-missing,
}
use os_bench.Common.Sort.{sorted}
use os_bench.Contracts.Cycles.{
  Dependencies, Dfs, Outcome, continue, cycle, exhausted, visit_all, enter, leave, visit, start,
  cycle_search,
}
use os_bench.Contracts.Cycles.Clear.{DependsOn, CallKeeps, Outcome-cases, visit-Keeps}

-- the keys that the path has not entered
abbrev room : List String → List String → ℕ
room [] visiting = 0
room (k ∷ ks) visiting = (if elem k visiting then 0 else 1) + room ks visiting

room-le : (ks : List String) (n : String) (v : List String) → room ks (n ∷ v) ≤ room ks v
room-le [] n v = omega arith
room-le (k ∷ ks) n v = ground (arith, room-le ks n v)

room-enter :
    (ks : List String) (n : String) (v : List String)
    → elem n ks ≡ true
    → elem n v ≡ false
    → suc (room ks (n ∷ v)) ≤ room ks v
room-enter [] n v h e = ground arith
room-enter (k ∷ ks) n v h e =
    ground (arith, room-le ks n v, room-enter ks n v, eq_iff n k, eq_iff k n)

room-nil : (ks : List String) → room ks [] ≡ length ks
room-nil [] = refl
room-nil (k ∷ ks) = omega (arith, room-nil ks)

visit_all_returns :
    (dependencies : Dependencies) (call : String → Dfs → Outcome) (v : List String)
    → CallKeeps (DependsOn dependencies) call
    → ((d : String) (s : Dfs) → s.visiting ≡ v → call d s ≢ exhausted)
    → (ds : List String) (s : Dfs) → s.visiting ≡ v
    → visit_all call ds s ≢ exhausted
unfolding visit_all
visit_all_returns deps call v ok never [] s e h = cc h
visit_all_returns deps call v ok never (d ∷ ds) s e h = elim (Outcome-cases (call d s)) [
  | inl (s', p) ↦
      visit_all_returns deps call v ok never ds s' (cc ((ok d s s' p).0.visiting))
        (rw (p, visit_all) at h)
  | inr (inl (c, p)) ↦ cc (rw (p, visit_all) at h)
  | inr (inr p) ↦ never d s e p
]

visit_all_nil : (call : String → Dfs → Outcome) (s : Dfs) → visit_all call [] s ≢ exhausted
unfolding visit_all
visit_all_nil call s h = cc h

module _ (dependencies : Dependencies) where
  leave_returns : (node : String) (o : Outcome) → o ≢ exhausted → leave node o ≢ exhausted
  leave_returns node (continue s) never h = cc h
  leave_returns node (cycle c) never h = cc h
  leave_returns node exhausted never h = never refl

  deps_returns :
      (fuel : ℕ) (node : String) (s : Dfs)
      → ((d : String) (t : Dfs)
          → suc (suc (room (keys dependencies) t.visiting)) ≤ fuel
          → visit fuel dependencies d t ≢ exhausted)
      → suc (room (keys dependencies) s.visiting) ≤ fuel
      → elem node s.visiting ≡ false
      → visit_all (visit fuel dependencies) (lookup_list node dependencies) (enter node s)
        ≢ exhausted
  deps_returns fuel node s never left fresh = elim (Bool-cases (elem node (keys dependencies))) [
    | inl known ↦
        visit_all_returns dependencies (visit fuel dependencies) (node ∷ s.visiting)
          (visit-Keeps dependencies fuel)
          (λ d t e.
            never d t
              (rw e (omega (arith, room-enter (keys dependencies) node s.visiting known fresh))))
          (lookup_list node dependencies) (enter node s) refl
    | inr leaf ↦
        rw (lookup_list-missing node dependencies leaf)
          (visit_all_nil (visit fuel dependencies) (enter node s))
  ]

  visit_returns :
      (fuel : ℕ) (node : String) (s : Dfs)
      → suc (suc (room (keys dependencies) s.visiting)) ≤ fuel
      → visit fuel dependencies node s ≢ exhausted
  unfolding visit
  visit_returns zero node s left h = absurd (omega arith)
  visit_returns (suc fuel) node s left h = elim (Bool-cases (elem node s.visited)) [
    | inl old ↦ cc (rw old at h)
    | inr new ↦ elim (Bool-cases (elem node s.visiting)) [
      | inl onpath ↦ cc (rw (new, onpath) at h)
      | inr fresh ↦
          leave_returns node _ (deps_returns fuel node s (visit_returns fuel) (omega arith) fresh)
            (rw (new, fresh) at h)
    ]
  ]

  -- The fuel of the search is enough, whatever the dependencies are.
  pub cycle_search_returns : cycle_search dependencies ≢ exhausted
  unfolding cycle_search
  cycle_search_returns =
      visit_all_returns dependencies (visit (suc (suc (length (keys dependencies)))) dependencies)
        [] (visit-Keeps dependencies (suc (suc (length (keys dependencies)))))
        (λ d t e.
          visit_returns (suc (suc (length (keys dependencies)))) d t
            (rw e (omega (arith, room-nil (keys dependencies)))))
        (sorted (keys dependencies)) start refl
