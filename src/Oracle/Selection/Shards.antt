-- ===== src/Oracle/Selection/Shards.antt =====
-- The shards of a corpus are disjoint and cover it, and a limit keeps the first cases.
use native.Mathlib.Nat.{mod-lt}
use os_bench.Common.{
  ℕ, zero, suc, ◌+◌, ◌%◌, ◌<◌, String, ◌≡◌, refl, ap, ◌∙◌, Bool, false, List, [], ◌∷◌, arith, none,
  some, keep, take, count_if, nat_eq, nat_eq_iff, leb, if◌then◌else◌,
}
use os_bench.Common.Int.{pos}
use os_bench.Common.Result.{ok}
use os_bench.Oracle.Selection.{Case, in_shard, select_cases}
use os_bench.Oracle.Selection.Loop.{select_loop-none, select_loop-some}

-- `f 0 + … + f (n - 1)`
abbrev pub total : (ℕ → ℕ) → ℕ → ℕ
total f zero = 0
total f (suc n) = f n + total f n

total-add : (f g : ℕ → ℕ) (n : ℕ) → total (λ i. f i + g i) n ≡ total f n + total g n
total-add f g zero = refl
total-add f g (suc n) = omega (arith, total-add f g n)

total_congr : (f g : ℕ → ℕ) → ((i : ℕ) → f i ≡ g i) → (n : ℕ) → total f n ≡ total g n
total_congr f g h zero = refl
total_congr f g h (suc n) = omega (arith, h n, total_congr f g h n)

total-zero : (n : ℕ) → total (λ i. 0) n ≡ 0
total-zero zero = refl
total-zero (suc n) = omega (arith, total-zero n)

-- Of the indices below `n`, one meets `k`.
total-nat_eq : (k w n : ℕ) → total (λ i. if nat_eq k i then w else 0) n ≡ (if leb n k then 0 else w)
total-nat_eq k w zero = ground arith
total-nat_eq k w (suc n) = ground (arith, total-nat_eq k w n, nat_eq_iff k n)

module _ (digest : String → ℕ) (n : ℕ) where
  abbrev shard : List Case → ℕ → List Case
  shard cases i = keep (in_shard digest (suc n) i) cases

  count_if-shard :
      (p : Case → Bool) (cases : List Case)
      → total (λ i. count_if p (shard cases i)) (suc n) ≡ count_if p cases
  count_if-shard p [] = total-zero (suc n)
  count_if-shard p (c ∷ cs) =
      let k = digest c.case_id % suc n in
      let w = if p c then 1 else 0 in
      total_congr (λ i. count_if p (shard (c ∷ cs) i))
        (λ i. (if nat_eq k i then w else 0) + count_if p (shard cs i)) (λ i. ground arith) (suc n)
      ∙ total-add (λ i. if nat_eq k i then w else 0) (λ i. count_if p (shard cs i)) (suc n)
      ∙ ap (λ x. x + total (λ i. count_if p (shard cs i)) (suc n))
          (one_shard k w (mod-lt (digest c.case_id) (omega arith)))
      ∙ ap (λ x. w + x) (count_if-shard p cs)
    where
      one_shard : (k w : ℕ) → k < suc n → total (λ i. if nat_eq k i then w else 0) (suc n) ≡ w
      one_shard k w h = total-nat_eq k w (suc n) ∙ ground arith

-- Without a limit and without `one_per_contract`, for a positive number of shards, every index is
-- accepted, and the cases of the corpus are shared out: whatever is counted, the counts of the shards add up to that of the corpus, so
-- no case is in two shards or in none.
pub select_cases-partition :
    (digest : String → ℕ) (cases : List Case) (n : ℕ)
    → (shard : ℕ → List Case) × ((i : ℕ)
        → i < suc n
        → select_cases digest cases false none (pos (suc n)) (pos i) ≡ ok (shard i))
      × ((p : Case → Bool) → total (λ i. count_if p (shard i)) (suc n) ≡ count_if p cases)
unfolding select_cases
select_cases-partition digest cases n = (
  (λ i. keep (in_shard digest (suc n) i) cases),
  (λ i h.
      let inside : leb (suc n) i ≡ false = ground arith in
      rw inside (ap ok (select_loop-none digest (in_shard digest (suc n) i) [] cases))),
  λ p. count_if-shard digest n p cases,
)

-- With a positive limit, the first cases of the shard are selected, up to the limit.
pub select_cases-limit :
    (digest : String → ℕ) (cases : List Case) (m n i : ℕ)
    → i < suc n
    → (shard : List Case) × (select_cases digest cases false none (pos (suc n)) (pos i) ≡ ok shard)
      × (select_cases digest cases false (some (pos (suc m))) (pos (suc n)) (pos i)
          ≡ ok (take (suc m) shard))
unfolding select_cases
select_cases-limit digest cases m n i h =
    let wanted = in_shard digest (suc n) i in
    let inside : leb (suc n) i ≡ false = ground arith in
    (
      keep wanted cases,
      rw inside (ap ok (select_loop-none digest wanted [] cases)),
      rw inside (ap ok (select_loop-some digest wanted (suc m) [] cases m (omega arith))),
    )
