-- ===== src/Common/Members.antt =====
-- Membership of texts in lists as the test `k in xs`, and Python's sets as lists without repeats.
use Prim.Native.Nat.{ℕ, suc, ◌+◌, ◌≤◌}
use Prim.Native.String.{String}
use mathlib.Core.Path.{◌≡◌, ◌∙◌, refl, ap}
use mathlib.Core.Logic.{inl, inr}
use mathlib.Core.Bool.{Bool, true, false, not, ◌&&◌, ◌||◌}
use mathlib.Core.List.{List, [], ◌∷◌, ◌++◌}
use native.Mathlib.Omega.{arith}
use text.Mathlib.Text.{◌==◌}
use text.Mathlib.TextEquality.{eq_iff}
use text.Mathlib.TextPositions.{eq_refl}
use os_bench.Common.Tests.{if◌then◌else◌, Bool-cases}
use os_bench.Common.Lists.{all, keep, length}

-- `k in xs`
abbrev pub elem : String → List String → Bool
elem k [] = false
elem k (x ∷ xs) = k == x || elem k xs

-- how often `k` occurs
abbrev pub count : String → List String → ℕ
count k [] = 0
count k (x ∷ xs) = (if k == x then 1 else 0) + count k xs

-- `out.add(k)` on a set
abbrev pub add : String → List String → List String
add k xs = if elem k xs then xs else k ∷ xs

abbrev pub nodup : List String → Bool
nodup [] = true
nodup (x ∷ xs) = not (elem x xs) && nodup xs

pub elem-append : (k : String) (xs ys : List String) → elem k (xs ++ ys) ≡ (elem k xs || elem k ys)
elem-append k [] ys = refl
elem-append k (x ∷ xs) ys = ground (arith, elem-append k xs ys)

pub elem-count : (k : String) (xs : List String) → (elem k xs ≡ true) → 1 ≤ count k xs
elem-count k [] h = ground arith
elem-count k (x ∷ xs) h = ground (arith, elem-count k xs)

pub elem_of_count : (k : String) (xs : List String) → 1 ≤ count k xs → elem k xs ≡ true
elem_of_count k [] h = ground arith
elem_of_count k (x ∷ xs) h = ground (arith, elem_of_count k xs)

pub count-append : (k : String) (xs ys : List String) → count k (xs ++ ys) ≡ count k xs + count k ys
count-append k [] ys = omega arith
count-append k (x ∷ xs) ys = ground (arith, count-append k xs ys)

pub elem-keep :
    (test : String → Bool) (k : String) (xs : List String)
    → elem k (keep test xs) ≡ (elem k xs && test k)
elem-keep test k [] = refl
elem-keep test k (x ∷ xs) = ground (arith, elem-keep test k xs, eq_iff k x)

-- `xs.remove(k)`: the first occurrence
abbrev pub remove : String → List String → List String
remove k [] = []
remove k (x ∷ xs) = if k == x then xs else x ∷ remove k xs

length-remove :
    (k : String) (xs : List String) → elem k xs ≡ true → suc (length (remove k xs)) ≡ length xs
length-remove k [] h = ground arith
length-remove k (x ∷ xs) h = ground (arith, length-remove k xs)

elem-remove_ne :
    (k j : String) (xs : List String) → (j == k) ≡ false → elem j (remove k xs) ≡ elem j xs
elem-remove_ne k j [] h = refl
elem-remove_ne k j (x ∷ xs) h =
    ground (arith, elem-remove_ne k j xs, eq_iff k x, eq_iff j k, eq_iff j x)

-- Distinct elements of a list are at most as many as the list has.
pub nodup-length :
    (xs ys : List String)
    → nodup xs ≡ true
    → ((k : String) → elem k xs ≡ true → elem k ys ≡ true)
    → length xs ≤ length ys
nodup-length [] ys d h = omega arith
nodup-length (x ∷ xs) ys d h =
    let present : elem x ys ≡ true = h x (ground (arith, eq_refl x)) in
    let rest =
      nodup-length xs (remove x ys) (ground arith)
        (λ k m. ground (arith, elem-remove_ne x k ys, h k, eq_iff k x)) in
    omega (arith, rest, length-remove x ys present)

-- If they are as many, they are all of it.
pub nodup_covers :
    (xs ys : List String)
    → nodup xs ≡ true
    → ((k : String) → elem k xs ≡ true → elem k ys ≡ true)
    → length ys ≤ length xs
    → (k : String) → elem k ys ≡ true
    → elem k xs ≡ true
nodup_covers xs ys d h le k m = elim (Bool-cases (elem k xs)) [
  | inl present ↦ present
  | inr absent ↦ absurd (
      omega
        (arith, nodup-length (k ∷ xs) ys (ground arith) (λ j e. ground (arith, h j, eq_iff j k))))
]

-- What holds of all the members holds of each.
pub all-elem :
    (p : String → Bool) (xs : List String) (x : String)
    → all p xs ≡ true
    → elem x xs ≡ true
    → p x ≡ true
all-elem p [] x h m = absurd (cc m)
all-elem p (y ∷ ys) x h m = elim (Bool-cases (x == y)) [
  | inl same ↦ let e : x ≡ y = ground (arith, eq_iff x y) in ap p e ∙ ground arith
  | inr other ↦ all-elem p ys x (ground arith) (ground arith)
]

pub all_of_elem :
    (p : String → Bool) (xs : List String)
    → ((x : String) → elem x xs ≡ true → p x ≡ true)
    → all p xs ≡ true
all_of_elem p [] h = refl
all_of_elem p (y ∷ ys) h =
    let first = h y (ground (arith, eq_refl y)) in
    let others = all_of_elem p ys (λ x m. h x (ground arith)) in ground arith
