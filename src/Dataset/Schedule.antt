-- ===== src/Dataset/Schedule.antt =====
-- The families that `_family_schedule` of src/osbench/dataset.py lists.
use os_bench.Common.{
  ℕ, zero, suc, ◌+◌, ◌%◌, ◌<◌, String, ◌≡◌, refl, sym, ap, ◌∙◌, Bool, true, false, not, ◌&&◌, List,
  [], ◌∷◌, ◌++◌, ◌==◌, eq_iff, eq_refl, elem, elem-count, elem_of_count, count, count-append, all,
  all-elem, all_of_elem, length, length-append, nat_eq, nat_eq_iff, lookup, lookup-none_iff, keys,
  nodup, Option-cases, get_or, inl, inr, Bool-cases, and-true, arith, if◌then◌else◌,
}
use os_bench.Common.Result.{ok}
use os_bench.Generators.{family_difficulty, difficulty_of}
use os_bench.Dataset.Generate.{
  public_family_counts, case_families, sum_counts, repeat, repeat_all, family_at, round_robin,
  family_list, Library, family_schedule,
}

-- what is documented of `shuffle`: it keeps every element as often as it is there
pub record Shuffles (shuffle : ℕ → List String → List String) : Type 0 where
  pub length : (s : ℕ) (fs : List String) → length (shuffle s fs) ≡ length fs
  pub count : (s : ℕ) (fs : List String) (f : String) → count f (shuffle s fs) ≡ count f fs

-- a family that has cases
abbrev pub is_family : String → Bool
is_family f = elem f case_families

pub is_family-difficulty_of :
    (f : String) → is_family f ≡ true → (d : String) × (difficulty_of f ≡ ok d)
is_family-difficulty_of f h = elim (Option-cases (lookup f family_difficulty)) [
  | inl absent ↦
      let missing : is_family f ≡ false = (lookup-none_iff f family_difficulty).0 absent in
      absurd (cc (h, missing))
  | inr (d, found) ↦ (d, rw (found, difficulty_of) refl)
]

elem-family_at :
    (i : ℕ) (families : List String)
    → i < length families
    → elem (family_at i families) families ≡ true
elem-family_at i [] h = absurd (ground (arith, h))
elem-family_at zero (f ∷ fs) h = ground (arith, eq_refl f)
elem-family_at (suc i) (f ∷ fs) h = ground (arith, elem-family_at i fs)

all-round_robin : (i n : ℕ) → all is_family (round_robin i n) ≡ true
unfolding round_robin
all-round_robin i zero = refl
all-round_robin i (suc n) =
    rw (elem-family_at (i % 11) case_families (ground arith)) (all-round_robin (suc i) n)

length-round_robin : (i n : ℕ) → length (round_robin i n) ≡ n
unfolding round_robin
length-round_robin i zero = refl
length-round_robin i (suc n) = ap suc (length-round_robin (suc i) n)

length-repeat : (n : ℕ) (f : String) → length (repeat n f) ≡ n
length-repeat zero f = refl
length-repeat (suc n) f = ap suc (length-repeat n f)

length-repeat_all : (counts : List (String × ℕ)) → length (repeat_all counts) ≡ sum_counts counts
unfolding repeat_all
length-repeat_all [] = refl
length-repeat_all ((f, n) ∷ counts) =
    length-append (repeat n f) (repeat_all counts)
    ∙ rw (length-repeat n f, length-repeat_all counts) refl

pub count-repeat :
    (k : String) (n : ℕ) (f : String) → count k (repeat n f) ≡ (if k == f then n else 0)
count-repeat k zero f = ground arith
count-repeat k (suc n) f = ground (arith, count-repeat k n f)

elem-repeat_all :
    (k : String) (counts : List (String × ℕ))
    → elem k (repeat_all counts) ≡ true
    → elem k (keys counts) ≡ true
unfolding repeat_all
elem-repeat_all k [] h = absurd (cc h)
elem-repeat_all k ((f, n) ∷ counts) h = elim (Bool-cases (k == f)) [
  | inl same ↦ rw (same) refl
  | inr other ↦
      let nowhere : count k (repeat n f) ≡ 0 = count-repeat k n f ∙ rw (other) refl in
      let there = elem-count k (repeat n f ++ repeat_all counts) h in
      let parts = count-append k (repeat n f) (repeat_all counts) in
      rw (other) (
        elem-repeat_all k counts
          (elem_of_count k (repeat_all counts) (ground (arith, there, parts, nowhere))))
]

negated : (b : Bool) → not b ≡ true → b ≡ false
negated b h = ground arith

plus_zero : (n : ℕ) → n + 0 ≡ n
plus_zero n = ground arith

-- each as often as the table says
pub count-repeat_all :
    (k : String) (counts : List (String × ℕ))
    → nodup (keys counts) ≡ true
    → count k (repeat_all counts) ≡ get_or (lookup k counts) 0
unfolding repeat_all
count-repeat_all k [] h = refl
count-repeat_all k ((f, n) ∷ counts) h =
    let (fresh, others) = and-true _ (nodup (keys counts)) h in
    let parts = count-append k (repeat n f) (repeat_all counts) in
    let first = count-repeat k n f in
    let rest = count-repeat_all k counts others in
    elim (Bool-cases (k == f)) [
      | inr other ↦ rw (other) (parts ∙ rw (first, other) (ground (arith, rest)))
      | inl same ↦
          let is : k ≡ f = (eq_iff k f).0 same in
          let gone : elem k (keys counts) ≡ false =
            rw (is) (negated (elem f (keys counts)) fresh) in
          rw (same)
            (parts ∙ rw (first, same, rest, (lookup-none_iff k counts).1 gone) (plus_zero n))
    ]

family_list-length : (total : ℕ) (profile : String) → length (family_list total profile) ≡ total
unfolding family_list
family_list-length total profile =
    elim (Bool-cases (profile == "public" && nat_eq total (sum_counts public_family_counts))) [
      | inl public ↦
          let (named, whole) =
            and-true (profile == "public") (nat_eq total (sum_counts public_family_counts))
              public in
          rw (public) (
            length-repeat_all public_family_counts
            ∙ sym ((nat_eq_iff total (sum_counts public_family_counts)).0 whole))
      | inr other ↦ rw (other) (length-round_robin 0 total)
    ]

all-family_list : (total : ℕ) (profile : String) → all is_family (family_list total profile) ≡ true
unfolding family_list
all-family_list total profile =
    elim (Bool-cases (profile == "public" && nat_eq total (sum_counts public_family_counts))) [
      | inl public ↦ rw (public) (
          all_of_elem is_family (repeat_all public_family_counts)
            (λ f there. elem-repeat_all f public_family_counts there))
      | inr other ↦ rw (other) (all-round_robin 0 total)
    ]

module _ (library : Library) (shuffles : Shuffles library.shuffle) (profile : String)
    (seed : ℕ) where
  pub family_schedule-length :
      (total : ℕ) → length (family_schedule library profile seed total) ≡ total
  unfolding family_schedule
  family_schedule-length total = shuffles.length _ _ ∙ family_list-length total profile

  pub all-family_schedule :
      (total : ℕ) → all is_family (family_schedule library profile seed total) ≡ true
  unfolding family_schedule
  all-family_schedule total =
      let chosen = library.exclusive_or seed 5979665 in
      let families = family_list total profile in
      all_of_elem is_family (library.shuffle chosen families) (λ f there.
        let often = elem-count f (library.shuffle chosen families) there in
        all-elem is_family families f (all-family_list total profile)
          (elem_of_count f families (rw (shuffles.count chosen families f) at often)))
