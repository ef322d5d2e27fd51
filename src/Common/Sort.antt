-- ===== src/Common/Sort.antt =====
-- Python's `sorted` with a key: stable, by insertion. The order is a Boolean test.
use Prim.Native.Nat.{suc, ◌+◌}
use Prim.Native.String.{String}
use mathlib.Core.Path.{◌≡◌, refl, ap, ◌∙◌, sym}
use mathlib.Core.Logic.{◌⊎◌, inl, inr}
use mathlib.Core.Bool.{Bool, true, false, ◌&&◌, ◌||◌}
use mathlib.Core.List.{List, [], ◌∷◌}
use native.Mathlib.Omega.{arith}
use text.Mathlib.Text.{◌==◌}
use text.Mathlib.TextEquality.{eq_iff}
use os_bench.Common.Tests.{if◌then◌else◌, Bool-cases}
use os_bench.Common.Lists.{length, all, any, count_if}
use os_bench.Common.Members.{elem, count, nodup}
use os_bench.Common.Text.{text_leb, text_leb_total, text_leb_trans}

module _ {ℓ} {A : Type ℓ} (leq : A → A → Bool) where
  -- before the first element that is not smaller, so equal keys keep their order
  unfoldable pub insert_sorted : A → List A → List A
  insert_sorted x [] = x ∷ []
  insert_sorted x (y ∷ ys) =
      let rest = insert_sorted x ys in if leq x y then x ∷ y ∷ ys else y ∷ rest

  unfoldable pub sort_by : List A → List A
  unfolding insert_sorted
  sort_by [] = []
  sort_by (x ∷ xs) = insert_sorted x (sort_by xs)

  -- every element is `leq` all that follow
  abbrev pub IsSorted : List A → Type 0
  IsSorted [] = Unit {0}
  IsSorted (x ∷ xs) = (all (leq x) xs ≡ true) × IsSorted xs

  length-insert_sorted : (x : A) (xs : List A) → length (insert_sorted x xs) ≡ suc (length xs)
  unfolding insert_sorted
  length-insert_sorted x [] = refl
  length-insert_sorted x (y ∷ ys) = ground (arith, length-insert_sorted x ys)

  pub length-sort_by : (xs : List A) → length (sort_by xs) ≡ length xs
  unfolding sort_by
  length-sort_by [] = refl
  length-sort_by (x ∷ xs) = length-insert_sorted x (sort_by xs) ∙ ap suc (length-sort_by xs)

  all-insert_sorted :
      (test : A → Bool) (x : A) (xs : List A)
      → all test (insert_sorted x xs) ≡ (test x && all test xs)
  unfolding insert_sorted
  all-insert_sorted test x [] = refl
  all-insert_sorted test x (y ∷ ys) = ground (arith, all-insert_sorted test x ys)

  pub all-sort_by : (test : A → Bool) (xs : List A) → all test (sort_by xs) ≡ all test xs
  unfolding sort_by
  all-sort_by test [] = refl
  all-sort_by test (x ∷ xs) =
      all-insert_sorted test x (sort_by xs) ∙ ap (λ b. test x && b) (all-sort_by test xs)

  any-insert_sorted :
      (test : A → Bool) (x : A) (xs : List A)
      → any test (insert_sorted x xs) ≡ (test x || any test xs)
  unfolding insert_sorted
  any-insert_sorted test x [] = refl
  any-insert_sorted test x (y ∷ ys) = ground (arith, any-insert_sorted test x ys)

  pub any-sort_by : (test : A → Bool) (xs : List A) → any test (sort_by xs) ≡ any test xs
  unfolding sort_by
  any-sort_by test [] = refl
  any-sort_by test (x ∷ xs) =
      any-insert_sorted test x (sort_by xs) ∙ ap (λ b. test x || b) (any-sort_by test xs)

  count_if-insert_sorted :
      (test : A → Bool) (x : A) (xs : List A)
      → count_if test (insert_sorted x xs) ≡ (if test x then 1 else 0) + count_if test xs
  unfolding insert_sorted
  count_if-insert_sorted test x [] = refl
  count_if-insert_sorted test x (y ∷ ys) = ground (arith, count_if-insert_sorted test x ys)

  pub count_if-sort_by :
      (test : A → Bool) (xs : List A) → count_if test (sort_by xs) ≡ count_if test xs
  unfolding sort_by
  count_if-sort_by test [] = refl
  count_if-sort_by test (x ∷ xs) =
      omega (arith, count_if-insert_sorted test x (sort_by xs), count_if-sort_by test xs)

  module _ (leq_total : (x y : A) → (leq x y ≡ true) ⊎ (leq y x ≡ true))
      (leq_trans : (x y z : A) → leq x y ≡ true → leq y z ≡ true → leq x z ≡ true) where
    all_trans :
        (x y : A) (xs : List A) → leq x y ≡ true → all (leq y) xs ≡ true → all (leq x) xs ≡ true
    all_trans x y [] h a = refl
    all_trans x y (z ∷ zs) h a = ground (arith, all_trans x y zs, leq_trans x y z)

    insert_sorted-IsSorted : (x : A) (xs : List A) → IsSorted xs → IsSorted (insert_sorted x xs)
    unfolding insert_sorted
    insert_sorted-IsSorted x [] s = (refl, tt)
    insert_sorted-IsSorted x (y ∷ ys) s = elim (Bool-cases (leq x y)) [
      | inl before ↦ rw before ((rw before (all_trans x y ys before s.0), s))
      | inr after ↦ rw after (
          (
            ground (arith, all-insert_sorted (leq y) x ys, leq_total x y),
            insert_sorted-IsSorted x ys s.1,
          ))
    ]

    pub sort_by-IsSorted : (xs : List A) → IsSorted (sort_by xs)
    unfolding sort_by
    sort_by-IsSorted [] = tt
    sort_by-IsSorted (x ∷ xs) = insert_sorted-IsSorted x (sort_by xs) (sort_by-IsSorted xs)

-- `sorted(xs)` of texts
unfoldable pub sorted : List String → List String
unfolding sort_by
sorted xs = sort_by text_leb xs

pub sorted-IsSorted : (xs : List String) → IsSorted text_leb (sorted xs)
unfolding sorted
sorted-IsSorted xs = sort_by-IsSorted text_leb text_leb_total text_leb_trans xs

elem-any : (k : String) (xs : List String) → elem k xs ≡ any (◌==◌ k) xs
elem-any k [] = refl
elem-any k (x ∷ xs) = ap (λ b. k == x || b) (elem-any k xs)

count-count_if : (k : String) (xs : List String) → count k xs ≡ count_if (◌==◌ k) xs
count-count_if k [] = refl
count-count_if k (x ∷ xs) = ap (λ n. (if k == x then 1 else 0) + n) (count-count_if k xs)

pub elem-sorted : (k : String) (xs : List String) → elem k (sorted xs) ≡ elem k xs
unfolding sorted
elem-sorted k xs =
    elem-any k (sort_by text_leb xs) ∙ any-sort_by text_leb (◌==◌ k) xs ∙ sym (elem-any k xs)

pub count-sorted : (k : String) (xs : List String) → count k (sorted xs) ≡ count k xs
unfolding sorted
count-sorted k xs = omega (
  arith,
  count-count_if k (sort_by text_leb xs),
  count_if-sort_by text_leb (◌==◌ k) xs,
  count-count_if k xs,
)

pub length-sorted : (xs : List String) → length (sorted xs) ≡ length xs
unfolding sorted
length-sorted xs = length-sort_by text_leb xs

nodup-insert_sorted :
    (x : String) (xs : List String)
    → elem x xs ≡ false
    → nodup xs ≡ true
    → nodup (insert_sorted text_leb x xs) ≡ true
unfolding insert_sorted
nodup-insert_sorted x [] a h = refl
nodup-insert_sorted x (y ∷ ys) a h =
    ground (arith, nodup-insert_sorted x ys, elem-insert y x ys, eq_iff x y, eq_iff y x)
  where
    elem-insert :
        (k x : String) (xs : List String)
        → elem k (insert_sorted text_leb x xs) ≡ (k == x || elem k xs)
    elem-insert k x xs =
        elem-any k (insert_sorted text_leb x xs)
        ∙ any-insert_sorted text_leb (◌==◌ k) x xs
        ∙ ap (λ b. k == x || b) (sym (elem-any k xs))

pub nodup-sorted : (xs : List String) → nodup xs ≡ true → nodup (sorted xs) ≡ true
unfolding sorted
nodup-sorted [] h = refl
nodup-sorted (x ∷ xs) h =
    ground (arith, nodup-insert_sorted x (sorted xs), elem-sorted x xs, nodup-sorted xs)
