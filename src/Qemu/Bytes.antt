-- ===== src/Qemu/Bytes.antt =====
-- The methods of Python's bytes that src/osbench/qemu.py uses on what it reads: `in`,
-- `splitlines`, `startswith` and the split at the first space.
use os_bench.Common.{
  ℕ, Bool, true, false, not, ◌&&◌, ◌||◌, List, [], ◌∷◌, ◌++◌, nat_eq, if◌then◌else◌, ◌≡◌, refl,
  arith,
}

abbrev pub starts_with : List ℕ → List ℕ → Bool
starts_with [] ys = true
starts_with (a ∷ xs) [] = false
starts_with (a ∷ xs) (b ∷ ys) = nat_eq a b && starts_with xs ys

-- `part in ys`
abbrev pub contains : List ℕ → List ℕ → Bool
contains part [] = starts_with part []
contains part (b ∷ ys) = starts_with part (b ∷ ys) || contains part ys

-- a line feed or a carriage return
abbrev pub is_newline : ℕ → Bool
is_newline b = nat_eq b 10 || nat_eq b 13

abbrev last_line : List ℕ → List (List ℕ)
last_line [] = []
last_line (b ∷ ys) = (b ∷ ys) ∷ []

-- The lines of the bytes to come, after those of `line`. A line feed right after a carriage
-- return belongs to it.
abbrev pub lines_from : Bool → List ℕ → List ℕ → List (List ℕ)
lines_from after_return line [] = last_line line
lines_from after_return line (b ∷ ys) =
    let rest = lines_from (nat_eq b 13) (if is_newline b then [] else line ++ b ∷ []) ys in
    if is_newline b && not (after_return && nat_eq b 10) then line ∷ rest else rest

abbrev pub split_lines : List ℕ → List (List ℕ)
split_lines ys = lines_from false [] ys

-- `line.split(b" ", 1)[1]` of a line with a space
abbrev pub after_space : List ℕ → List ℕ
after_space [] = []
after_space (b ∷ ys) = if nat_eq b 32 then ys else after_space ys

-- More bytes do not take away what is there.
starts_with-append :
    (part xs ys : List ℕ) → starts_with part xs ≡ true → starts_with part (xs ++ ys) ≡ true
starts_with-append [] xs ys h = refl
starts_with-append (p ∷ part) [] ys h = absurd (cc h)
starts_with-append (p ∷ part) (a ∷ xs) ys h = ground (arith, starts_with-append part xs ys)

starts_with-contains : (part ys : List ℕ) → starts_with part ys ≡ true → contains part ys ≡ true
starts_with-contains part [] h = h
starts_with-contains part (b ∷ ys) h = rw (h) refl

pub contains-append :
    (part xs ys : List ℕ) → contains part xs ≡ true → contains part (xs ++ ys) ≡ true
contains-append part [] [] h = h
contains-append part [] (b ∷ ys) h =
    starts_with-contains part (b ∷ ys) (starts_with-append part [] (b ∷ ys) h)
contains-append part (a ∷ xs) ys h =
    ground (arith, starts_with-append part (a ∷ xs) ys, contains-append part xs ys)
