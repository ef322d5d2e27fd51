-- ===== src/Contracts/Cycles/Found.antt =====
-- What a search that reports a cycle has found: a closed walk of prerequisites.
use mathlib.Core.Path.{subst}
use os_bench.Common.{
  ℕ, zero, suc, String, ◌≡◌, refl, ap, Bool, true, ◌&&◌, List, [], ◌∷◌, ◌++◌, arith, ◌==◌, eq_iff,
  eq_refl, elem, elem-append, lookup_list, Bool-cases, inl, inr,
}
use os_bench.Precedence.{Walk, one, more}
use os_bench.Contracts.Cycles.{
  Dependencies, Dfs, Outcome, continue, cycle, exhausted, from_index, visit_all, enter, leave,
  visit,
}
use os_bench.Contracts.Cycles.Clear.{DependsOn, Keeps, CallKeeps, Outcome-cases, visit-Keeps}

module _ (dependencies : Dependencies) where
  -- each element lists the next as a prerequisite
  abbrev pub chained : List String → Bool
  chained [] = true
  chained (x ∷ []) = true
  chained (x ∷ y ∷ rest) = elem y (lookup_list x dependencies) && chained (y ∷ rest)

  abbrev pub IsCycle : List String → Type 0
  IsCycle c =
      (v : String) × (middle : List String) × (c ≡ v ∷ (middle ++ v ∷ [])) × (chained c ≡ true)

  chained-tail : (x : String) (xs : List String) → chained (x ∷ xs) ≡ true → chained xs ≡ true
  chained-tail x [] h = refl
  chained-tail x (y ∷ ys) h = ground arith

  chained-concat :
      (xs : List String) (u d : String)
      → chained (xs ++ u ∷ []) ≡ true
      → elem d (lookup_list u dependencies) ≡ true
      → chained ((xs ++ u ∷ []) ++ d ∷ []) ≡ true
  chained-concat [] u d h e = ground arith
  chained-concat (x ∷ []) u d h e = ground arith
  chained-concat (x ∷ y ∷ ys) u d h e = ground (arith, chained-concat (y ∷ ys) u d)

  from_index-IsCycle :
      (v : String) (stack : List String)
      → elem v stack ≡ true
      → chained (stack ++ v ∷ []) ≡ true
      → IsCycle (from_index v stack ++ v ∷ [])
  from_index-IsCycle v [] m h = absurd (cc m)
  from_index-IsCycle v (x ∷ xs) m h = elim (Bool-cases (v == x)) [
    | inl e ↦
        let p : x ≡ v = ground (arith, eq_iff v x) in
        rw e (v, xs, ap (λ y. y ∷ (xs ++ v ∷ [])) p, h)
    | inr e ↦ rw e (from_index-IsCycle v xs (rw e at m) (chained-tail x (xs ++ v ∷ []) h))
  ]

  -- A reported cycle is a walk that comes back.
  pub chained-Walk :
      (v w : String) (middle : List String)
      → chained (v ∷ (middle ++ w ∷ [])) ≡ true
      → Walk (DependsOn dependencies) w v
  chained-Walk v w [] h = one (ground arith)
  chained-Walk v w (m ∷ middle) h = more (chained-Walk m w middle (ground arith)) (ground arith)

  -- The stack leads to the node that is called, and holds what is being visited.
  abbrev OnPath : String → Dfs → Type 0
  OnPath d s =
      (chained (s.stack ++ d ∷ []) ≡ true)
      × ((v : String) → elem v s.visiting ≡ true → elem v s.stack ≡ true)

  abbrev CallFinds : (String → Dfs → Outcome) → Type 0
  CallFinds call =
      (d : String) (s : Dfs) (c : List String) → OnPath d s → call d s ≡ cycle c → IsCycle c

  pub visit_all-IsCycle :
      (call : String → Dfs → Outcome)
      → CallKeeps (DependsOn dependencies) call
      → CallFinds call
      → (ds : List String) (s : Dfs) (c : List String)
      → ((d : String) → elem d ds ≡ true → OnPath d s)
      → visit_all call ds s ≡ cycle c
      → IsCycle c
  unfolding visit_all
  visit_all-IsCycle call ok finds [] s c path h = absurd (cc h)
  visit_all-IsCycle call ok finds (d ∷ ds) s c path h = elim (Outcome-cases (call d s)) [
    | inl (s', e) ↦
        let (kept, _) = ok d s s' e in
        visit_all-IsCycle call ok finds ds s' c (λ x m. moved x kept (path x (ground arith)))
          (rw (e, visit_all) at h)
    | inr (inl (c', e)) ↦
        let same : c' ≡ c = cc (rw (e, visit_all) at h) in
        subst IsCycle same (finds d s c' (path d (ground (arith, eq_refl d))) e)
    | inr (inr e) ↦ absurd (cc (rw (e, visit_all) at h))
  ]
    where
      moved : {t : Dfs} (x : String) → Keeps (DependsOn dependencies) s t → OnPath x s → OnPath x t
      moved {t} x kept p = (rw kept.stack p.0, λ v m. rw kept.stack (p.1 v (rw kept.visiting at m)))

  leave-eq-cycle :
      (node : String) (o : Outcome) (c : List String) → leave node o ≡ cycle c → o ≡ cycle c
  leave-eq-cycle node (continue s) c h = absurd (cc h)
  leave-eq-cycle node (cycle c') c h = h
  leave-eq-cycle node exhausted c h = absurd (cc h)

  pub visit-IsCycle : (fuel : ℕ) → CallFinds (visit fuel dependencies)
  unfolding visit
  visit-IsCycle zero d s c p h = absurd (cc h)
  visit-IsCycle (suc fuel) d s c p h = elim (Bool-cases (elem d s.visited)) [
    | inl old ↦ absurd (cc (rw old at h))
    | inr new ↦ elim (Bool-cases (elem d s.visiting)) [
      | inl onpath ↦
          let same : (from_index d s.stack ++ d ∷ []) ≡ c = cc (rw (new, onpath) at h) in
          subst IsCycle same (from_index-IsCycle d s.stack (p.1 d onpath) p.0)
      | inr fresh ↦
          visit_all-IsCycle (visit fuel dependencies) (visit-Keeps dependencies fuel)
            (visit-IsCycle fuel) (lookup_list d dependencies) (enter d s) c
            (λ x m. (chained-concat s.stack d x p.0 m, λ v e. on_stack v e))
            (leave-eq-cycle d _ c (rw (new, fresh) at h))
    ]
  ]
    where
      on_stack : (v : String) → elem v (d ∷ s.visiting) ≡ true → elem v (s.stack ++ d ∷ []) ≡ true
      on_stack v e = ground (arith, elem-append v s.stack (d ∷ []), p.1 v)
