-- ===== src/Minimization/Chunks.antt =====
-- What one pass over the chunks finds.
use os_bench.Common.{
  ℕ, zero, suc, ◌+◌, ◌≤◌, ◌<◌, ◌≡◌, Bool, true, false, List, [], ◌∷◌, arith, none, some, length,
  take, drop, ltb, ltb→lt, lt→ltb, length-append, length-take, length-drop, Bool-cases, inl, inr,
}
use os_bench.Minimization.{without, still_fails, first_reduction}

-- `xs` is `ys` with some items left out.
pub data IsSubsequence {ℓ} {A : Type ℓ} : List A → List A → Type ℓ where
  nothing : {ys : List A} → IsSubsequence [] ys
  skip : {xs ys : List A} (y : A) → IsSubsequence xs ys → IsSubsequence xs (y ∷ ys)
  hold : {xs ys : List A} (y : A) → IsSubsequence xs ys → IsSubsequence (y ∷ xs) (y ∷ ys)

pub IsSubsequence-refl {ℓ} : {A : Type ℓ} (xs : List A) → IsSubsequence xs xs
IsSubsequence-refl [] = nothing
IsSubsequence-refl (x ∷ xs) = hold x (IsSubsequence-refl xs)

pub IsSubsequence-trans {ℓ} :
    {A : Type ℓ} {xs ys zs : List A}
    → IsSubsequence xs ys
    → IsSubsequence ys zs
    → IsSubsequence xs zs
IsSubsequence-trans nothing q = nothing
IsSubsequence-trans p (skip y q) = skip y (IsSubsequence-trans p q)
IsSubsequence-trans (skip y p) (hold y' q) = skip y' (IsSubsequence-trans p q)
IsSubsequence-trans (hold y p) (hold y' q) = hold y' (IsSubsequence-trans p q)

module _ {ℓ} {A : Type ℓ} (fails : List A → Bool) where
  drop-IsSubsequence : (n : ℕ) (xs : List A) → IsSubsequence (drop n xs) xs
  drop-IsSubsequence zero xs = IsSubsequence-refl xs
  drop-IsSubsequence (suc n) [] = nothing
  drop-IsSubsequence (suc n) (x ∷ xs) = skip x (drop-IsSubsequence n xs)

  without-IsSubsequence :
      (start chunk : ℕ) (xs : List A) → IsSubsequence (without fails start chunk xs) xs
  without-IsSubsequence zero chunk xs = drop-IsSubsequence (zero + chunk) xs
  without-IsSubsequence (suc start) chunk [] = drop-IsSubsequence (suc start + chunk) []
  without-IsSubsequence (suc start) chunk (x ∷ xs) =
      let shift : suc start + chunk ≡ suc (start + chunk) = omega arith in
      rw shift (hold x (without-IsSubsequence start chunk xs))

  length-without :
      (start chunk : ℕ) (xs : List A)
      → 1 ≤ chunk
      → start < length xs
      → length (without fails start chunk xs) < length xs
  length-without start chunk xs h k = omega (
    arith,
    length-append (take start xs) (drop (start + chunk) xs),
    length-take start xs,
    length-drop (start + chunk) xs,
  )

  pub still_fails-fails : (xs : List A) → still_fails fails xs ≡ true → fails xs ≡ true
  still_fails-fails [] h = absurd (cc h)
  still_fails-fails (x ∷ xs) h = h

  -- A reduction is a shorter part of the sequence that still fails.
  pub first_reduction-some :
      (rounds start chunk : ℕ) (xs candidate : List A)
      → 1 ≤ chunk
      → first_reduction fails rounds start chunk xs ≡ some candidate
      → (length candidate < length xs) × (fails candidate ≡ true) × IsSubsequence candidate xs
  unfolding first_reduction
  first_reduction-some zero start chunk xs candidate h e = absurd (cc e)
  first_reduction-some (suc rounds) start chunk xs candidate h e =
      elim (Bool-cases (ltb start (length xs))) [
        | inr past ↦ absurd (cc (rw past at e))
        | inl inside ↦ elim (Bool-cases (still_fails fails (without fails start chunk xs))) [
          | inl found ↦
              let same : without fails start chunk xs ≡ candidate = cc (rw (inside, found) at e) in
              rw (← same) (
                length-without start chunk xs h (ltb→lt _ _ inside),
                still_fails-fails _ found,
                without-IsSubsequence start chunk xs,
              )
          | inr other ↦
              first_reduction-some rounds (start + chunk) chunk xs candidate h
                (rw (inside, other) at e)
        ]
      ]

  -- A pass over single items that finds nothing has tried every one.
  pub first_reduction-none :
      (rounds start : ℕ) (xs : List A)
      → first_reduction fails rounds start 1 xs ≡ none
      → (i : ℕ) → start ≤ i
      → i < start + rounds
      → i < length xs
      → still_fails fails (without fails i 1 xs) ≡ false
  unfolding first_reduction
  first_reduction-none zero start xs e i low high inside = absurd (omega arith)
  first_reduction-none (suc rounds) start xs e i low high inside =
      let here : ltb start (length xs) ≡ true = lt→ltb _ _ (omega arith) in
      elim (Bool-cases (still_fails fails (without fails start 1 xs))) [
        | inl found ↦ absurd (cc (rw (here, found) at e))
        | inr other ↦ elim (Bool-cases (ltb start i)) [
          | inl later ↦
              first_reduction-none rounds (start + 1) xs (rw (here, other) at e) i
                (omega (arith, ltb→lt _ _ later)) (omega arith) inside
          | inr first ↦ let same : i ≡ start = ground arith in rw same other
        ]
      ]
