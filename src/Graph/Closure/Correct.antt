-- ===== src/Graph/Closure/Correct.antt =====
-- The closure is the set of values that walks lead to.
use mathlib.Core.Path.{subst}
use os_bench.Common.{
  ℕ, zero, suc, ◌+◌, String, ◌≡◌, refl, ◌∙◌, inl, inr, ◌↔◌, true, ◌&&◌, ◌||◌, not, List, [], ◌∷◌,
  arith, ◌==◌, eq_iff, eq_refl, Bool-cases, List-cases, elem, elem-append, nodup, length,
}
use os_bench.Common.Sort.{elem-sorted, nodup-sorted, sorted-IsSorted, IsSorted}
use os_bench.Graph.Adjacency.{Adjacency, neighbors}
use os_bench.Common.Text.{text_leb}
use os_bench.Graph.Closure.{
  Search, visit, search_loop, edge_count, search_of, closure, Reach, here, step,
}
use os_bench.Graph.Closure.Fuel.{closure_drained}

module _ (g : Adjacency) (start : List String) where
  record Inv (s : Search) : Type 0 where
    started : (v : String) → elem v start ≡ true → (elem v s.output || elem v s.queue) ≡ true
    sound : (v : String) → (elem v s.output || elem v s.queue) ≡ true → Reach g start v
    closed :
        (u v : String)
        → elem u s.output ≡ true
        → elem v (neighbors g u) ≡ true
        → (elem v s.output || elem v s.queue) ≡ true
    distinct : nodup s.output ≡ true

  Inv-start : Inv (search_of start)
  Inv-start = record {
    started = λ v h. h;
    sound = λ v h. here h;
    closed = λ u v h e. ground arith;
    distinct = refl;
  }

  module _ (v : String) (out rest : List String) where
    abbrev before : Search
    before = record { output = out; queue = v ∷ rest }

    elem-visit :
        (w : String)
        → (elem w (visit g v out rest).output || elem w (visit g v out rest).queue)
          ≡ (elem w out || elem w (v ∷ rest) || (not (elem v out) && elem w (neighbors g v)))
    unfolding visit
    elem-visit w = ground (arith, elem-append w rest (neighbors g v), eq_iff w v)

    output-visit : (w : String) → elem w (visit g v out rest).output ≡ (w == v || elem w out)
    unfolding visit
    output-visit w = ground (arith, eq_iff w v)

    Inv-visit : Inv before → Inv (visit g v out rest)
    Inv-visit h = record {
      started = λ w m. ground (arith, elem-visit w, h.started w);
      sound = λ w m. sound_visit w m;
      closed = λ u w m e.
          ground (arith, elem-visit w, output-visit u, h.closed u w, h.closed v w, eq_iff u v);
      distinct = unfold visit in ground (arith, h.distinct);
    }
      where
        at_v : Reach g start v
        at_v = h.sound v (ground (arith, eq_refl v))

        sound_visit :
            (w : String)
            → (elem w (visit g v out rest).output || elem w (visit g v out rest).queue) ≡ true
            → Reach g start w
        sound_visit w m = elim (Bool-cases (elem w out || elem w (v ∷ rest))) [
          | inl old ↦ h.sound w old
          | inr new ↦ step at_v (ground (arith, elem-visit w))
        ]

  Inv-search_loop : (fuel : ℕ) (s : Search) → Inv s → Inv (search_loop fuel g s)
  unfolding search_loop
  Inv-search_loop zero s h = h
  Inv-search_loop (suc fuel) s h = elim (List-cases s.queue) [
    | inl e ↦ rw (e, search_loop) h
    | inr (v, rest, e) ↦
        rw (e, search_loop)
          (Inv-search_loop fuel (visit g v s.output rest) (
            Inv-visit v s.output rest
              (subst (λ q. Inv (record { output = s.output; queue = q })) e h)))
  ]

  -- with an empty queue the output is closed under edges
  complete :
      (t : Search) → Inv t → t.queue ≡ [] → {v : String} → Reach g start v → elem v t.output ≡ true
  complete t h e (here {v} m) = ground (arith, h.started v m)
  complete t h e (step {u} {v} p m) = ground (arith, h.closed u v (complete t h e p) m)

  final : Inv (search_loop (length start + edge_count g) g (search_of start))
  final = Inv-search_loop (length start + edge_count g) (search_of start) Inv-start

-- A value is in the closure exactly if a walk along the adjacency leads to it from one of `start`.
pub closure_correct :
    (start : List String) (g : Adjacency) (v : String)
    → (elem v (closure start g) ≡ true) ↔ Reach g start v
unfolding closure
closure_correct start g v =
    let t : Search = search_loop (length start + edge_count g) g (search_of start) in
    let inv = final g start in
    (
      λ m. inv.sound v (ground (arith, elem-sorted v t.output)),
      λ w. elem-sorted v t.output ∙ complete g start t inv (closure_drained start g) w,
    )

-- The closure lists no value twice, and in ascending order.
pub closure-IsSorted :
    (start : List String) (g : Adjacency)
    → (nodup (closure start g) ≡ true) × IsSorted text_leb (closure start g)
unfolding closure
closure-IsSorted start g =
    let t : Search = search_loop (length start + edge_count g) g (search_of start) in
    let inv = final g start in (nodup-sorted t.output inv.distinct, sorted-IsSorted t.output)
