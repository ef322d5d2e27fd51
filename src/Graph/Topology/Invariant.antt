-- ===== src/Graph/Topology/Invariant.antt =====
-- What every step of Kahn's algorithm keeps.
use mathlib.Core.Path.{subst}
use mathlib.Core.List.{append_assoc}
use os_bench.Common.{
  ℕ, zero, suc, ◌+◌, ◌≤◌, String, ◌≡◌, refl, ap, ◌∙◌, sym, Bool, true, false, ◌||◌, List, [], ◌∷◌,
  ◌++◌, arith, eq_iff, eq_refl, elem, elem-append, count, nodup, nodup-length, keys, lookup, insert,
  lookup-insert, length, length-append, some, Bool-cases, List-cases, inl, inr,
}
use os_bench.Common.Int.{pos}
use os_bench.Common.Result.{ok}
use os_bench.Common.Sort.{sorted, elem-sorted, count-sorted}
use os_bench.Graph.Adjacency.{Adjacency, neighbors}
use os_bench.Graph.Topology.{Sweep, release, release_one, sweep_loop}
use os_bench.Graph.Topology.Counting.{blocked, blocked_congr, blocked-cons, blocked-zero}
use os_bench.Graph.Topology.Spec.{IsOrdered, IsOrdered-concat}

abbrev started : Sweep → String → Bool
started s n = elem n s.order || elem n s.queue

module _ (nodes : List String) (g : Adjacency) where
  abbrev pub before : String → String → Bool
  before a n = elem n (neighbors g a)

  -- `left` holds the children of the current node that are still to be released.
  pub record Inv (left : List String) (s : Sweep) : Type 0 where
    pub counts :
        (n : String)
        → elem n nodes ≡ true
        → lookup n s.indegree ≡ some (pos (blocked n g s.order + count n left))
    pub ready :
        (n : String)
        → elem n nodes ≡ true
        → (elem n s.order || elem n s.queue) ≡ true
        → blocked n g s.order + count n left ≡ 0
    pub waiting :
        (n : String)
        → elem n nodes ≡ true
        → (elem n s.order || elem n s.queue) ≡ false
        → 1 ≤ blocked n g s.order + count n left
    pub inside : (n : String) → (elem n s.order || elem n s.queue) ≡ true → elem n nodes ≡ true
    pub distinct : nodup (s.order ++ s.queue) ≡ true
    pub ordered : IsOrdered before [] s.order

  nodup-concat :
      (xs : List String) (x : String)
      → nodup xs ≡ true
      → elem x xs ≡ false
      → nodup (xs ++ x ∷ []) ≡ true
  nodup-concat [] x d h = refl
  nodup-concat (y ∷ ys) x d h =
      ground (arith, nodup-concat ys x, elem-append y ys (x ∷ []), eq_iff x y, eq_iff y x)

  module _ (child : String) (rest : List String) (s : Sweep) (m : ℕ)
      (known : elem child nodes ≡ true) (e : lookup child s.indegree ≡ some (pos (suc m)))
      (h : Inv (child ∷ rest) s) where
    child_blocked : suc (blocked child g s.order + count child rest) ≡ suc m
    child_blocked = ground (arith, h.counts child, eq_refl child)

    child_waits : (elem child s.order || elem child s.queue) ≡ false
    child_waits = elim (Bool-cases (elem child s.order || elem child s.queue)) [
      | inl already ↦ absurd (ground (arith, h.ready child, eq_refl child))
      | inr waits ↦ waits
    ]

    release_counts :
        (n : String)
        → elem n nodes ≡ true
        → lookup n (insert child (pos m) s.indegree)
          ≡ some (pos (blocked n g s.order + count n rest))
    release_counts n k =
        ground (
          arith,
          lookup-insert child n (pos m) s.indegree,
          h.counts n,
          eq_iff n child,
          child_blocked,
        )

  nodup-middle :
      (xs : List String) (x : String) (rest : List String)
      → nodup (xs ++ x ∷ rest) ≡ true
      → elem x xs ≡ false
  nodup-middle [] x rest h = refl
  nodup-middle (y ∷ ys) x rest h =
      ground (arith, nodup-middle ys x rest, elem-append y ys (x ∷ rest), eq_iff x y, eq_refl x)

  length-zero : (xs : List String) → length xs ≤ 0 → xs ≡ []
  length-zero [] h = refl
  length-zero (x ∷ xs) h = absurd (omega arith)

  -- one child of the current node
  release_one-Inv :
      (child : String) (rest : List String) (s : Sweep) (m : ℕ)
      → elem child nodes ≡ true
      → lookup child s.indegree ≡ some (pos (suc m))
      → Inv (child ∷ rest) s
      → Inv rest (release_one child (pos (suc m)) s)
  release_one-Inv child rest s zero known e h = record {
    counts = release_counts child rest s zero known e h;
    ready = λ n k p. ground (
      arith,
      elem-append n s.queue (child ∷ []),
      eq_iff n child,
      h.ready n,
      child_blocked child rest s zero known e h,
    );
    waiting =
        λ n k p. ground (arith, elem-append n s.queue (child ∷ []), eq_iff n child, h.waiting n);
    inside = λ n p. ground (arith, elem-append n s.queue (child ∷ []), eq_iff n child, h.inside n);
    distinct = rw (← append_assoc s.order s.queue (child ∷ [])) (
        nodup-concat (s.order ++ s.queue) child h.distinct
          (elem-append child s.order s.queue ∙ child_waits child rest s zero known e h));
    ordered = h.ordered;
  }
  release_one-Inv child rest s (suc m) known e h = record {
    counts = release_counts child rest s (suc m) known e h;
    ready = λ n k p.
        ground (arith, eq_iff n child, h.ready n, child_waits child rest s (suc m) known e h);
    waiting = λ n k p.
        ground (arith, eq_iff n child, h.waiting n, child_blocked child rest s (suc m) known e h);
    inside = h.inside;
    distinct = h.distinct;
    ordered = h.ordered;
  }

  -- the whole `for`: it returns, and keeps the order
  release-Inv :
      (children : List String) (s : Sweep)
      → ((n : String) → elem n children ≡ true → elem n nodes ≡ true)
      → Inv children s
      → (t : Sweep) × (release children s ≡ ok t) × Inv [] t × (t.order ≡ s.order)
  unfolding release
  release-Inv [] s known h = (s, refl, h, refl)
  release-Inv (child ∷ rest) s known h =
      let k = known child (ground (arith, eq_refl child)) in
      let m = blocked child g s.order + count child rest in
      let e : lookup child s.indegree ≡ some (pos (suc m)) =
        h.counts child k ∙ ap (λ x. some (pos x)) (ground (arith, eq_refl child)) in
      let (t, runs, inv, same) =
        release-Inv rest (release_one child (pos (suc m)) s) (λ n p. known n (ground arith))
          (release_one-Inv child rest s m k e h) in
      (t, rw (e, release) runs, inv, same)

  module _ (keys_distinct : nodup (keys g) ≡ true)
      (targets : (a n : String) → before a n ≡ true → elem n nodes ≡ true) where
    -- `queue.popleft()` and `order.append(…)`
    take-Inv :
        (x : String) (rest : List String) (s : Sweep)
        → Inv [] (record { indegree = s.indegree; queue = x ∷ rest; order = s.order })
        → Inv
            (sorted (neighbors g x))
            (record { indegree = s.indegree; queue = rest; order = s.order ++ x ∷ [] })
    take-Inv x rest s h = record {
      counts = λ n k. h.counts n k ∙ ap (λ b. some (pos b)) (omega (arith, moved n));
      ready = λ n k p. ground (arith, moved n, h.ready n, elem-append n s.order (x ∷ []));
      waiting = λ n k p. ground (arith, moved n, h.waiting n, elem-append n s.order (x ∷ []));
      inside = λ n p. ground (arith, h.inside n, elem-append n s.order (x ∷ []));
      distinct = rw (append_assoc s.order (x ∷ []) rest) h.distinct;
      ordered =
          IsOrdered-concat before [] s.order x h.ordered
            (λ a e. ground (arith, unblocked, blocked-zero a x g s.order));
    }
      where
        new : elem x s.order ≡ false
        new = nodup-middle s.order x rest h.distinct

        unblocked : blocked x g s.order ≡ 0
        unblocked = ground (arith, h.inside x, h.ready x, eq_refl x)

        moved :
            (n : String)
            → blocked n g (s.order ++ x ∷ []) + count n (sorted (neighbors g x))
              ≡ blocked n g s.order
        moved n = omega (
          arith,
          blocked_congr n g (s.order ++ x ∷ []) (x ∷ s.order)
              (λ k. ground (arith, elem-append k s.order (x ∷ []))),
          count-sorted n (neighbors g x),
          blocked-cons n x g s.order keys_distinct new,
        )

    sweep_step :
        (fuel : ℕ) (s t : Sweep) (x : String) (rest : List String)
        → s.queue ≡ x ∷ rest
        → release
            (sorted (neighbors g x))
            (record { indegree = s.indegree; queue = rest; order = s.order ++ x ∷ [] })
          ≡ ok t
        → sweep_loop (suc fuel) g s ≡ sweep_loop fuel g t
    unfolding sweep_loop
    sweep_step fuel s t x rest e ran = rw (e, ran, sweep_loop) refl

    -- With a round for each node that is not in the order yet, the queue is empty at the end.
    pub sweep_loop-Inv :
        (fuel : ℕ) (s : Sweep)
        → length nodes ≤ length s.order + fuel
        → Inv [] s
        → (t : Sweep) × (sweep_loop fuel g s ≡ ok t) × Inv [] t × (t.queue ≡ [])
    unfolding sweep_loop
    sweep_loop-Inv zero s enough h = (
      s,
      refl,
      h,
      length-zero s.queue (
          omega (
            arith,
            length-append s.order s.queue,
            nodup-length (s.order ++ s.queue) nodes h.distinct
                (λ n m. h.inside n (sym (elem-append n s.order s.queue) ∙ m)),
          )),
    )
    sweep_loop-Inv (suc fuel) s enough h = elim (List-cases s.queue) [
      | inl e ↦ (s, simp (e, sweep_loop), h, e)
      | inr (x, rest, e) ↦
          let taken : Sweep = record {
            indegree = s.indegree;
            queue = rest;
            order = s.order ++ x ∷ [];
          } in
          let first = take-Inv x rest s (
            subst (λ q. Inv [] (record { indegree = s.indegree; queue = q; order = s.order })) e
              h) in
          let (mid, ran, inv, same) =
            release-Inv (sorted (neighbors g x)) taken
              (λ n m. targets x n (sym (elem-sorted n (neighbors g x)) ∙ m)) first in
          let (t, ends, inv', done) =
            sweep_loop-Inv fuel mid (omega (arith, ap length same, length-append s.order (x ∷ [])))
              inv in
          (t, sweep_step fuel s mid x rest e ran ∙ ends, inv', done)
    ]
