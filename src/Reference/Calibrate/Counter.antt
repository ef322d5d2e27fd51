-- ===== src/Reference/Calibrate/Counter.antt =====
-- The counter of a calibration, against the outcomes in its records.
use os_bench.Common.{
  ℕ, zero, suc, ◌+◌, String, ◌≡◌, refl, ap, ◌∙◌, true, ◌||◌, List, [], ◌∷◌, ◌++◌, ◌==◌, eq_iff,
  elem, count, nodup, Option, none, some, Dict, keys, lookup, Bool-cases, inl, inr, arith,
  if◌then◌else◌,
}
use os_bench.Reference.Calibrate.{TrialRecord, increment}

abbrev pub outcomes_of : List TrialRecord → List String
outcomes_of [] = []
outcomes_of (r ∷ rs) = r.outcome ∷ outcomes_of rs

-- a `Counter` has no entry for what it has not seen
abbrev pub seen_times : ℕ → Option ℕ
seen_times zero = none
seen_times (suc n) = some (suc n)

abbrev pub sum : Dict ℕ → ℕ
sum [] = 0
sum ((k, n) ∷ m) = n + sum m

pub sum-increment : (o : String) (m : Dict ℕ) → sum (increment o m) ≡ sum m + 1
sum-increment o [] = refl
sum-increment o ((j, n) ∷ m) = ground (arith, sum-increment o m)

pub elem-keys-increment :
    (o k : String) (m : Dict ℕ) → elem k (keys (increment o m)) ≡ (k == o || elem k (keys m))
elem-keys-increment o k [] = ground arith
elem-keys-increment o k ((j, n) ∷ m) =
    ground (arith, elem-keys-increment o k m, eq_iff o j, eq_iff k j)

pub nodup-keys-increment :
    (o : String) (m : Dict ℕ) → nodup (keys m) ≡ true → nodup (keys (increment o m)) ≡ true
nodup-keys-increment o [] h = refl
nodup-keys-increment o ((j, n) ∷ m) h =
    ground (arith, nodup-keys-increment o m, elem-keys-increment o j m, eq_iff o j, eq_iff j o)

-- one more
abbrev one_more : Option ℕ → Option ℕ
one_more none = some 1
one_more (some n) = some (n + 1)

lookup-increment :
    (o k : String) (m : Dict ℕ)
    → lookup k (increment o m) ≡ (if k == o then one_more (lookup k m) else lookup k m)
lookup-increment o k [] = ground arith
lookup-increment o k ((j, n) ∷ m) =
    ground (arith, lookup-increment o k m, eq_iff o j, eq_iff k j, eq_iff k o)

pub outcomes_of-append :
    (rs : List TrialRecord) (r : TrialRecord)
    → outcomes_of (rs ++ r ∷ []) ≡ outcomes_of rs ++ r.outcome ∷ []
outcomes_of-append [] r = refl
outcomes_of-append (x ∷ xs) r = ap (λ l. x.outcome ∷ l) (outcomes_of-append xs r)

one_more-seen_times : (n : ℕ) → one_more (seen_times n) ≡ seen_times (suc n)
one_more-seen_times zero = refl
one_more-seen_times (suc n) = ap some (omega arith)

pub count-outcomes_of-append :
    (k : String) (rs : List TrialRecord) (r : TrialRecord)
    → count k (outcomes_of (rs ++ r ∷ []))
      ≡ (if k == r.outcome then suc (count k (outcomes_of rs)) else count k (outcomes_of rs))
count-outcomes_of-append k [] r = ground arith
count-outcomes_of-append k (x ∷ xs) r = ground (arith, count-outcomes_of-append k xs r)

pub lookup_counted :
    (o k : String) (m : Dict ℕ) (n : ℕ)
    → lookup k m ≡ seen_times n
    → lookup k (increment o m) ≡ seen_times (if k == o then suc n else n)
lookup_counted o k m n h = elim (Bool-cases (k == o)) [
  | inl same ↦ rw same (lookup-increment o k m ∙ rw (same, h) (one_more-seen_times n))
  | inr different ↦ rw different (lookup-increment o k m ∙ rw different h)
]
