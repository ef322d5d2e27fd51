-- ===== src/Minimization.antt =====
-- `minimize_sequence` of src/osbench/minimization.py and `ddmin` of tools/minimization/minimize.py:
-- delta debugging of a failing sequence. `fails` is what running the sequence reports.
pub mod Chunks
pub mod Minimal
pub mod Budget
use os_bench.Common.{
  ℕ, zero, suc, ◌+◌, ◌-◌, ◌*◌, ◌/◌, Bool, true, false, not, ◌&&◌, List, [], ◌∷◌, ◌++◌, Option, none,
  some, length, take, drop, ltb, leb, max, min, if◌then◌else◌,
}

module _ {ℓ} {A : Type ℓ} (fails : List A → Bool) where
  -- `items[:start] + items[start + chunk:]`
  abbrev pub without : ℕ → ℕ → List A → List A
  without start chunk items = take start items ++ drop (start + chunk) items

  -- `candidate and fails(candidate)`
  abbrev pub still_fails : List A → Bool
  still_fails [] = false
  still_fails (x ∷ xs) = fails (x ∷ xs)

  -- `for start in range(0, len(result), chunk)`: the first candidate that still fails. A chunk is
  -- not empty, so there are at most as many starts as items.
  unfoldable pub first_reduction : ℕ → ℕ → ℕ → List A → Option (List A)
  first_reduction zero start chunk items = none
  first_reduction (suc rounds) start chunk items =
      let candidate = without start chunk items in
      let later = first_reduction rounds (start + chunk) chunk items in
      if not (ltb start (length items))
      then none
      else if still_fails candidate
      then some candidate
      else later

  -- the `while`, with the chunk size that a granularity gives; `none` when the fuel runs out
  unfoldable pub shrink : (ℕ → ℕ → ℕ) → ℕ → ℕ → List A → Option (List A)
  unfolding first_reduction
  shrink chunk_size zero granularity items = none
  shrink chunk_size (suc fuel) granularity items =
      if ltb (length items) 2
      then some items
      else elim (first_reduction (length items) 0 (chunk_size (length items) granularity) items) [
        | some candidate ↦ shrink chunk_size fuel (max 2 (granularity - 1)) candidate
        | none ↦ elim (leb (length items) granularity) [
          | true ↦ some items
          | false ↦ shrink chunk_size fuel (min (length items) (granularity * 2)) items
        ]
      ]

-- `max(1, len(result) // granularity)`
abbrev pub floor_chunk : ℕ → ℕ → ℕ
floor_chunk len granularity = max 1 (len / granularity)

-- `(len(sequence) + n - 1) // n`
abbrev pub ceiling_chunk : ℕ → ℕ → ℕ
ceiling_chunk len n = (len + n - 1) / n

-- A sum that a sequence of reductions and refinements cannot exceed.
abbrev pub budget : ℕ → ℕ
budget zero = 0
budget (suc n) = suc (suc n) + budget n

unfoldable pub minimize_sequence {ℓ} : {A : Type ℓ} → (List A → Bool) → List A → Option (List A)
unfolding shrink
minimize_sequence fails items =
    shrink fails floor_chunk (suc (budget (length items) + length items)) 2 items

unfoldable pub ddmin {ℓ} : {A : Type ℓ} → (List A → Bool) → List A → Option (List A)
unfolding shrink
ddmin fails sequence =
    shrink fails ceiling_chunk (suc (budget (length sequence) + length sequence)) 2 sequence
