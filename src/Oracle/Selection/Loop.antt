-- ===== src/Oracle/Selection/Loop.antt =====
-- What the loop of `select_cases` selects.
use mathlib.Core.List.{append_assoc, append-nil}
use os_bench.Common.{
  ℕ, zero, suc, ◌+◌, String, ◌≡◌, refl, ◌∙◌, sym, Bool, true, false, List, [], ◌∷◌, ◌++◌, arith,
  none, some, length, length-append, keep, take, leb, Bool-cases, inl, inr,
}
use os_bench.Common.Int.{pos}
use os_bench.Oracle.Selection.{Case, select_loop}

module _ (digest : String → ℕ) (wanted : Case → Bool) where
  -- Without a limit, all the wanted cases.
  pub select_loop-none :
      (selected cs : List Case)
      → select_loop digest wanted none selected cs ≡ selected ++ keep wanted cs
  unfolding select_loop
  select_loop-none selected [] = sym (append-nil selected)
  select_loop-none selected (c ∷ cs) = elim (Bool-cases (wanted c)) [
    | inl yes_wanted ↦
        rw (yes_wanted, select_loop)
          (select_loop-none (selected ++ c ∷ []) cs
            ∙ append_assoc selected (c ∷ []) (keep wanted cs))
    | inr other ↦ rw (other, select_loop) (select_loop-none selected cs)
  ]

  -- With a limit, the first of them.
  pub select_loop-some :
      (m : ℕ) (selected cs : List Case) (room : ℕ)
      → m ≡ length selected + suc room
      → select_loop digest wanted (some (pos m)) selected cs
        ≡ selected ++ take (suc room) (keep wanted cs)
  unfolding select_loop
  select_loop-some m selected [] room h = sym (append-nil selected)
  select_loop-some m selected (c ∷ cs) room h = elim (Bool-cases (wanted c)) [
    | inr other ↦ rw (other, select_loop) (select_loop-some m selected cs room h)
    | inl yes_wanted ↦ last_or_more room h yes_wanted (select_loop-some m (selected ++ c ∷ []) cs)
  ]
    where
      last_or_more :
          (room : ℕ)
          → m ≡ length selected + suc room
          → wanted c ≡ true
          → ((room : ℕ)
              → m ≡ length (selected ++ c ∷ []) + suc room
              → select_loop digest wanted (some (pos m)) (selected ++ c ∷ []) cs
                ≡ (selected ++ c ∷ []) ++ take (suc room) (keep wanted cs))
          → select_loop digest wanted (some (pos m)) selected (c ∷ cs)
            ≡ selected ++ take (suc room) (keep wanted (c ∷ cs))
      last_or_more zero h e later =
          let last : leb m (length (selected ++ c ∷ [])) ≡ true =
            ground (arith, length-append selected (c ∷ [])) in
          rw (e, last, select_loop) refl
      last_or_more (suc room) h e later =
          let more : leb m (length (selected ++ c ∷ [])) ≡ false =
            ground (arith, length-append selected (c ∷ [])) in
          rw (e, more, select_loop)
            (later room (omega (arith, length-append selected (c ∷ [])))
              ∙ append_assoc selected (c ∷ []) (take (suc room) (keep wanted cs)))
