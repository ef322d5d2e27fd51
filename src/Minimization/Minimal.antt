-- ===== src/Minimization/Minimal.antt =====
-- Both minimizers return a part of the sequence that still fails and from which no single item
-- can be left out.
use os_bench.Common.{
  ℕ, zero, suc, ◌+◌, ◌-◌, ◌*◌, ◌≤◌, ◌<◌, ◌≡◌, refl, Bool, true, false, List, arith, none, some,
  length, ltb, leb, ltb→lt, leb→le, Bool-cases, Option-cases, inl, inr, min, max,
}
use os_bench.Minimization.{
  without, still_fails, first_reduction, shrink, budget, floor_chunk, ceiling_chunk,
  minimize_sequence, ddmin,
}
use os_bench.Minimization.Budget.{
  budget-lt, floor_chunk-ge-one, floor_chunk-eq-one, ceiling_chunk-ge-one, ceiling_chunk-eq-one,
}
use os_bench.Minimization.Chunks.{
  IsSubsequence, IsSubsequence-refl, IsSubsequence-trans, first_reduction-some,
  first_reduction-none,
}

-- Where two items or more are left, leaving any one of them out makes the failure go away.
pub IsMinimal {ℓ} : {A : Type ℓ} → (List A → Bool) → List A → Type 0
IsMinimal fails xs =
    2 ≤ length xs → (i : ℕ) → i < length xs → still_fails fails (without fails i 1 xs) ≡ false

pub record IsReduced {ℓ} {A : Type ℓ} (fails : List A → Bool) (items result : List A) : Type ℓ where
  pub part : IsSubsequence result items
  pub failing : fails items ≡ true → fails result ≡ true
  pub minimal : IsMinimal fails result

-- What the two loops have in common.
pub record IsChunkSize (chunk_size : ℕ → ℕ → ℕ) : Type 0 where
  pub positive : (len g : ℕ) → 2 ≤ len → 2 ≤ g → 1 ≤ chunk_size len g
  pub single : (len g : ℕ) → 2 ≤ len → 2 ≤ g → len ≤ g → chunk_size len g ≡ 1

module _ {ℓ} {A : Type ℓ} (fails : List A → Bool) (chunk_size : ℕ → ℕ → ℕ)
    (sizes : IsChunkSize chunk_size) where
  short-IsMinimal : (xs : List A) → ltb (length xs) 2 ≡ true → IsMinimal fails xs
  unfolding IsMinimal
  short-IsMinimal xs short two i inside = absurd (omega (arith, ltb→lt _ _ short))

  finished-IsMinimal :
      (xs : List A) (g : ℕ)
      → 2 ≤ g
      → length xs ≤ g
      → first_reduction fails (length xs) 0 (chunk_size (length xs) g) xs ≡ none
      → IsMinimal fails xs
  unfolding IsMinimal
  finished-IsMinimal xs g two fits e many i inside =
      first_reduction-none fails (length xs) 0 xs
        (rw (sizes.single (length xs) g many two fits) at e) i (omega arith) (omega arith) inside

  -- With more fuel than the reductions and refinements can use, the loop returns.
  shrink-IsReduced :
      (fuel g : ℕ) (xs : List A)
      → 2 ≤ g
      → budget (length xs) + (length xs - g) < fuel
      → (result : List A) × (shrink fails chunk_size fuel g xs ≡ some result)
        × IsReduced fails xs result
  unfolding shrink
  shrink-IsReduced zero g xs two enough = absurd (omega arith)
  shrink-IsReduced (suc fuel) g xs two enough = elim (Bool-cases (ltb (length xs) 2)) [
    | inl short ↦ (
      xs,
      rw short refl,
      record { part = IsSubsequence-refl xs; failing = λ h. h; minimal = short-IsMinimal xs short },
    )
    | inr long ↦
        let many : 2 ≤ length xs = ground arith in
        elim (Option-cases (first_reduction fails (length xs) 0 (chunk_size (length xs) g) xs)) [
          | inr (candidate, e) ↦
              let (shorter, failing, part) =
                first_reduction-some fails (length xs) 0 (chunk_size (length xs) g) xs candidate
                  (sizes.positive (length xs) g many two) e in
              let (result, ran, reduced) =
                shrink-IsReduced fuel (max 2 (g - 1)) candidate (omega arith)
                  (omega (arith, budget-lt (length candidate) (length xs) shorter)) in
              (
                result,
                rw (long, e) ran,
                record {
                  part = IsSubsequence-trans reduced.part part;
                  failing = λ h. reduced.failing failing;
                  minimal = reduced.minimal;
                },
              )
          | inl e ↦ elim (Bool-cases (leb (length xs) g)) [
            | inl fits ↦ (
              xs,
              rw (long, e, fits) refl,
              record {
                part = IsSubsequence-refl xs;
                failing = λ h. h;
                minimal = finished-IsMinimal xs g two (leb→le _ _ fits) e;
              },
            )
            | inr coarse ↦
                let wide : g < length xs = ground arith in
                let (result, ran, reduced) =
                  shrink-IsReduced fuel (min (length xs) (g * 2)) xs (omega arith) (omega arith) in
                (result, rw (long, e, coarse) ran, reduced)
          ]
        ]
  ]

floor_chunk-IsChunkSize : IsChunkSize floor_chunk
floor_chunk-IsChunkSize = record {
  positive = λ len g l h. floor_chunk-ge-one len g;
  single = λ len g l h e. floor_chunk-eq-one len g h e;
}

ceiling_chunk-IsChunkSize : IsChunkSize ceiling_chunk
ceiling_chunk-IsChunkSize = record {
  positive = ceiling_chunk-ge-one;
  single = ceiling_chunk-eq-one;
}

-- `minimize_sequence` returns, for every test: the result is the sequence with items left out, it
-- fails if the sequence does, and unless fewer than two items are left, without any one of its
-- items it does not fail.
pub minimize_sequence-IsReduced {ℓ} :
    {A : Type ℓ} (fails : List A → Bool) (items : List A)
    → (result : List A) × (minimize_sequence fails items ≡ some result)
      × IsReduced fails items result
unfolding minimize_sequence
minimize_sequence-IsReduced fails items =
    shrink-IsReduced fails floor_chunk floor_chunk-IsChunkSize
      (suc (budget (length items) + length items)) 2 items (omega arith) (omega arith)

-- `ddmin`, with its larger chunks, returns for every test as well: part of the sequence that
-- fails if the sequence does, and without any one of its items, if there are two or more, does
-- not.
pub ddmin-IsReduced {ℓ} :
    {A : Type ℓ} (fails : List A → Bool) (sequence : List A)
    → (result : List A) × (ddmin fails sequence ≡ some result) × IsReduced fails sequence result
unfolding ddmin
ddmin-IsReduced fails sequence =
    shrink-IsReduced fails ceiling_chunk ceiling_chunk-IsChunkSize
      (suc (budget (length sequence) + length sequence)) 2 sequence (omega arith) (omega arith)
