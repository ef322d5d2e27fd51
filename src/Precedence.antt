-- ===== src/Precedence.antt =====
-- What an acyclic prerequisite relation is: topological orders, and closed walks. The two searches
-- of the program (contracts.py and graph.py) are stated against this.
use mathlib.Core.Path.{subst}
use os_bench.Common.{
  String, ◌≡◌, Bool, true, List, [], ◌∷◌, arith, eq_iff, inl, inr, elem, Bool-cases,
}

-- `before a n`: `a` is a prerequisite of `n`.
abbrev pub Relation : Type 0
Relation = String → String → Bool

-- Newest first: what must come before an element stands behind it.
abbrev pub IsTopological : Relation → List String → Type 0
IsTopological before [] = Unit {0}
IsTopological before (n ∷ earlier) =
    ((a : String) → before a n ≡ true → elem a earlier ≡ true) × IsTopological before earlier

-- One step or more.
pub data Walk (before : Relation) (a : String) : String → Type 0 where
  one : {b : String} → before a b ≡ true → Walk before a b
  more : {b c : String} → Walk before a b → before b c ≡ true → Walk before a c

pub Walk-cons :
    {before : Relation} (a : String) {b c : String}
    → before a b ≡ true
    → Walk before b c
    → Walk before a c
Walk-cons a h (one e) = more (one h) e
Walk-cons a h (more w e) = more (Walk-cons a h w) e

module _ {before : Relation} where
  closed_step :
      (n : String) (earlier : List String)
      → ((a : String) → before a n ≡ true → elem a earlier ≡ true)
      → ((v : String) → elem v earlier ≡ true → ¬ Walk before v v)
      → ¬ Walk before n n
  closed_step n earlier prior rest (one e) = rest n (prior n e) (one e)
  closed_step n earlier prior rest (more {b} w e) = rest b (prior b e) (Walk-cons b e w)

  -- No closed walk meets a topological order.
  pub IsTopological-acyclic :
      (order : List String)
      → IsTopological before order
      → (v : String) → elem v order ≡ true
      → ¬ Walk before v v
  IsTopological-acyclic [] t v m w = ground arith
  IsTopological-acyclic (n ∷ earlier) t v m w = elim (Bool-cases (elem v earlier)) [
    | inl old ↦ IsTopological-acyclic earlier t.1 v old w
    | inr new ↦
        let e : v ≡ n = ground (arith, eq_iff v n) in
        closed_step n earlier t.0 (IsTopological-acyclic earlier t.1)
          (subst (λ x. Walk before x x) e w)
  ]
