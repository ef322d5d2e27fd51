-- ===== src/Contracts/Cycles/Clear.antt =====
-- What a search that finds no cycle has established: its visited nodes, newest first, are a
-- topological order.
use mathlib.Core.Path.{subst}
use os_bench.Common.{
  ℕ, zero, suc, String, ◌≡◌, refl, ap, ◌∙◌, true, List, [], ◌∷◌, ◌++◌, arith, eq_iff, eq_refl, elem,
  lookup_list, remove, Bool-cases, inl, inr, ◌⊎◌,
}
use os_bench.Precedence.{Relation, IsTopological}
use os_bench.Contracts.Cycles.{
  Dependencies, Dfs, Outcome, continue, cycle, exhausted, pop, visit_all, enter, leave, visit,
}

-- `a` is a prerequisite of `n`.
abbrev pub DependsOn : Dependencies → Relation
DependsOn dependencies a n = elem a (lookup_list n dependencies)

pop-concat : (xs : List String) (x : String) → pop (xs ++ x ∷ []) ≡ xs
pop-concat [] x = refl
pop-concat (y ∷ []) x = refl
pop-concat (y ∷ z ∷ ys) x = ap (◌∷◌ y) (pop-concat (z ∷ ys) x)

remove-head : (x : String) (xs : List String) → remove x (x ∷ xs) ≡ xs
remove-head x xs = rw eq_refl

pub Outcome-cases :
    (o : Outcome)
    → ((s : Dfs) × (o ≡ continue s)) ⊎ (((c : List String) × (o ≡ cycle c)) ⊎ (o ≡ exhausted))
Outcome-cases (continue s) = inl (s, refl)
Outcome-cases (cycle c) = inr (inl (c, refl))
Outcome-cases exhausted = inr (inr refl)

pub record Keeps (before : Relation) (s t : Dfs) : Type 0 where
  pub visiting : t.visiting ≡ s.visiting
  pub stack : t.stack ≡ s.stack
  pub grows : (v : String) → elem v s.visited ≡ true → elem v t.visited ≡ true
  pub ordered : IsTopological before s.visited → IsTopological before t.visited

Keeps-refl : (before : Relation) (s : Dfs) → Keeps before s s
Keeps-refl before s = record { visiting = refl; stack = refl; grows = λ v h. h; ordered = λ h. h }

Keeps-trans :
    {before : Relation} {s t u : Dfs} → Keeps before s t → Keeps before t u → Keeps before s u
Keeps-trans a b = record {
  visiting = b.visiting ∙ a.visiting;
  stack = b.stack ∙ a.stack;
  grows = λ v h. b.grows v (a.grows v h);
  ordered = λ h. b.ordered (a.ordered h);
}

module _ (before : Relation) (call : String → Dfs → Outcome) where
  abbrev pub CallKeeps : Type 0
  CallKeeps =
      (d : String) (s t : Dfs)
      → call d s ≡ continue t
      → Keeps before s t × (elem d t.visited ≡ true)

  pub visit_all-Keeps :
      CallKeeps
      → (ds : List String) (s t : Dfs) → visit_all call ds s ≡ continue t
      → Keeps before s t × ((a : String) → elem a ds ≡ true → elem a t.visited ≡ true)
  unfolding visit_all
  visit_all-Keeps ok [] s t h =
      let e : s ≡ t = cc in (subst (Keeps before s) e (Keeps-refl before s), λ a m. ground arith)
  visit_all-Keeps ok (d ∷ ds) s t h = elim (Outcome-cases (call d s)) [
    | inl (s', e) ↦
        let (first, at_d) = ok d s s' e in
        let (rest, others) = visit_all-Keeps ok ds s' t (rw (e, visit_all) at h) in
        (Keeps-trans first rest, λ a m. ground (arith, others a, rest.grows d at_d, eq_iff a d))
    | inr (inl (c, e)) ↦ absurd (no_cycle c e)
    | inr (inr e) ↦ absurd (cc (rw (e, visit_all) at h))
  ]
    where
      no_cycle : (c : List String) → call d s ≡ cycle c → ⊥
      no_cycle c e = cc (rw (e, visit_all) at h)

module _ (dependencies : Dependencies) where
  abbrev before : Relation
  before = DependsOn dependencies

  -- one call that entered its node and left it again
  entered :
      (fuel : ℕ) (node : String) (s s' : Dfs)
      → CallKeeps before (visit fuel dependencies)
      → visit_all (visit fuel dependencies) (lookup_list node dependencies) (enter node s)
        ≡ continue s'
      → (t : Dfs) → leave node (continue s') ≡ continue t
      → Keeps before s t × (elem node t.visited ≡ true)
  entered fuel node s s' ok h t e =
      let (inner, others) =
        visit_all-Keeps before (visit fuel dependencies) ok (lookup_list node dependencies)
          (enter node s) s' h in
      let left : Dfs = record {
        visiting = remove node s'.visiting;
        visited = node ∷ s'.visited;
        stack = pop s'.stack;
      } in
      let same : left ≡ t = cc in
      let kept : Keeps before s left = record {
        visiting = ap (remove node) inner.visiting ∙ remove-head node s.visiting;
        stack = ap pop inner.stack ∙ pop-concat s.stack node;
        grows = λ v m. ground (arith, inner.grows v m);
        ordered = λ o. (others, inner.ordered o);
      } in
      (
        subst (Keeps before s) same kept,
        subst (λ u. elem node u.visited ≡ true) same (ground (arith, eq_refl node)),
      )

  pub visit-Keeps : (fuel : ℕ) → CallKeeps before (visit fuel dependencies)
  unfolding visit
  visit-Keeps zero node s t h = absurd (cc h)
  visit-Keeps (suc fuel) node s t h = elim (Bool-cases (elem node s.visited)) [
    | inl old ↦
        let e : s ≡ t = cc (rw old at h) in
        (
          subst (Keeps before s) e (Keeps-refl before s),
          subst (λ u. elem node u.visited ≡ true) e old,
        )
    | inr new ↦ elim (Bool-cases (elem node s.visiting)) [
      | inl onpath ↦ absurd (cc (rw (new, onpath) at h))
      | inr fresh ↦
          elim (Outcome-cases
            (visit_all (visit fuel dependencies) (lookup_list node dependencies) (enter node s))) [
              | inl (s', e) ↦
                  entered fuel node s s' (visit-Keeps fuel) e t (rw (new, fresh, e) at h)
              | inr (inl (c, e)) ↦ absurd (cc (rw (new, fresh, e) at h))
              | inr (inr e) ↦ absurd (cc (rw (new, fresh, e) at h))
            ]
    ]
  ]
