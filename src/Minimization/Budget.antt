-- ===== src/Minimization/Budget.antt =====
-- The fuel of the minimizers, and their chunk sizes.
use native.Mathlib.Nat.{div-lt_iff_lt-mul, le-div_iff_mul-le}
use os_bench.Common.{ℕ, zero, suc, ◌+◌, ◌≤◌, ◌<◌, ◌≡◌, arith, ◌-◌}
use os_bench.Minimization.{budget, floor_chunk, ceiling_chunk}

-- A shorter sequence leaves room for all its refinements.
pub budget-lt : (m n : ℕ) → m < n → budget m + m < budget n
budget-lt m zero h = absurd (omega arith)
budget-lt m (suc k) h = ground (arith, budget-lt m k)

pub floor_chunk-ge-one : (len granularity : ℕ) → 1 ≤ floor_chunk len granularity
floor_chunk-ge-one len granularity = omega arith

-- Once the granularity reaches the length, single items are left out.
pub floor_chunk-eq-one :
    (len granularity : ℕ) → 2 ≤ granularity → len ≤ granularity → floor_chunk len granularity ≡ 1
floor_chunk-eq-one len granularity two h =
    omega
      (arith, (div-lt_iff_lt-mul {k = granularity} {x = len} {y = 2} (omega arith)).1 (omega arith))

pub ceiling_chunk-ge-one : (len n : ℕ) → 2 ≤ len → 2 ≤ n → 1 ≤ ceiling_chunk len n
ceiling_chunk-ge-one len n l h =
    (le-div_iff_mul-le {k = n} {x = 1} {y = len + n - 1} (omega arith)).1 (omega arith)

pub ceiling_chunk-eq-one : (len n : ℕ) → 2 ≤ len → 2 ≤ n → len ≤ n → ceiling_chunk len n ≡ 1
ceiling_chunk-eq-one len n l h e = omega (
  arith,
  ceiling_chunk-ge-one len n l h,
  (div-lt_iff_lt-mul {k = n} {x = len + n - 1} {y = 2} (omega arith)).1 (omega arith),
)
