-- ===== src/Utilities/Streams.antt =====
-- What the digest of a tree (sha256_tree in src/osbench/util.py) tells apart.
use mathlib.Core.List.{append_assoc}
use os_bench.Common.{
  ℕ, String, ◌≡◌, refl, sym, ap, ◌∙◌, Bool, true, false, not, ◌&&◌, List, [], ◌∷◌, ◌++◌, all,
  length, nat_eq, nat_eq_iff, and-true, arith, keep, Bool-cases, inl, inr,
}
use os_bench.Common.Sort.{sort_by, insert_sorted}
use os_bench.Utilities.{TreeFile, Paths, tree_stream, is_hashed, hashed_files}

-- no NUL in it
abbrev pub no_zero : List ℕ → Bool
no_zero bs = all (λ b. not (nat_eq b 0)) bs

-- the name up to the NUL, and what follows it, are determined
split_at_zero :
    (xs ys : List ℕ) (us vs : List ℕ)
    → no_zero xs ≡ true
    → no_zero ys ≡ true
    → xs ++ 0 ∷ us ≡ ys ++ 0 ∷ vs
    → (xs ≡ ys) × (us ≡ vs)
split_at_zero [] [] us vs h j e = (refl, cc e)
split_at_zero [] (y ∷ ys) us vs h j e = let y_zero : 0 ≡ y = cc e in absurd (cc (y_zero, j))
split_at_zero (x ∷ xs) [] us vs h j e = let x_zero : x ≡ 0 = cc e in absurd (cc (x_zero, h))
split_at_zero (x ∷ xs) (y ∷ ys) us vs h j e =
    let (hx, hxs) = and-true (not (nat_eq x 0)) (no_zero xs) h in
    let (jy, jys) = and-true (not (nat_eq y 0)) (no_zero ys) j in
    let (same, rest) = split_at_zero xs ys us vs hxs jys (cc e) in
    let first : x ≡ y = cc e in (cc (first, same), rest)

-- parts of one length are determined
split_at_length :
    (xs ys us vs : List ℕ) → length xs ≡ length ys → xs ++ us ≡ ys ++ vs → (xs ≡ ys) × (us ≡ vs)
split_at_length [] [] us vs h e = (refl, e)
split_at_length [] (y ∷ ys) us vs h e = absurd (cc h)
split_at_length (x ∷ xs) [] us vs h e = absurd (cc h)
split_at_length (x ∷ xs) (y ∷ ys) us vs h e =
    let (same, rest) = split_at_length xs ys us vs (ground arith) (cc e) in
    let first : x ≡ y = cc e in (cc (first, same), rest)

not_empty : {A : Type 0} (xs us vs : List ℕ) → [] ≡ (xs ++ 0 ∷ us) ++ vs → A
not_empty [] us vs e = absurd (cc e)
not_empty (x ∷ xs) us vs e = absurd (cc e)

module _ (library : Paths) where
  -- a file that can be hashed: no NUL in its name, a digest of 32 bytes
  abbrev pub well_formed : TreeFile → Bool
  well_formed f = no_zero (library.utf8 f.relative) && nat_eq (length f.digest) 32

  -- the names and digests that are hashed
  abbrev pub entries : List TreeFile → List (List ℕ × List ℕ)
  entries [] = []
  entries (f ∷ fs) = (library.utf8 f.relative, f.digest) ∷ entries fs

  file_length :
      (f : TreeFile)
      → well_formed f ≡ true
      → (no_zero (library.utf8 f.relative) ≡ true) × (length f.digest ≡ 32)
  file_length f h =
      let (name, long) =
        and-true (no_zero (library.utf8 f.relative)) (nat_eq (length f.digest) 32) h in
      (name, (nat_eq_iff (length f.digest) 32).0 long)

  -- Two sequences of files, with 32 bytes of digest each and no NUL in a name, are hashed from the
  -- same bytes only if they are as long and have the same names and digests in turn.
  pub tree_stream-entries :
      (fs gs : List TreeFile)
      → all well_formed fs ≡ true
      → all well_formed gs ≡ true
      → tree_stream library fs ≡ tree_stream library gs
      → entries fs ≡ entries gs
  unfolding tree_stream
  tree_stream-entries [] [] h j e = refl
  tree_stream-entries [] (g ∷ gs) h j e =
      not_empty (library.utf8 g.relative) g.digest (tree_stream library gs) e
  tree_stream-entries (f ∷ fs) [] h j e =
      not_empty (library.utf8 f.relative) f.digest (tree_stream library fs) (sym e)
  tree_stream-entries (f ∷ fs) (g ∷ gs) h j e =
      let (good, others) = and-true (well_formed f) (all well_formed fs) h in
      let (fine, rest) = and-true (well_formed g) (all well_formed gs) j in
      let (name_f, long_f) = file_length f good in
      let (name_g, long_g) = file_length g fine in
      let (names, tails) =
        split_at_zero (library.utf8 f.relative) (library.utf8 g.relative)
          (f.digest ++ tree_stream library fs) (g.digest ++ tree_stream library gs) name_f name_g
          (sym (append_assoc (library.utf8 f.relative) (0 ∷ f.digest) (tree_stream library fs))
            ∙ e
            ∙ append_assoc (library.utf8 g.relative) (0 ∷ g.digest) (tree_stream library gs)) in
      let (digests, streams) =
        split_at_length f.digest g.digest (tree_stream library fs) (tree_stream library gs)
          (long_f ∙ sym long_g) tails in
      let same = tree_stream-entries fs gs others rest streams in cc (names, digests, same)

  -- a file that is not hashed can be added anywhere
  keep-insert_sorted :
      (patterns : List String) (f : TreeFile) (fs : List TreeFile)
      → is_hashed library patterns f ≡ false
      → keep (is_hashed library patterns) (insert_sorted library.path_leb f fs)
        ≡ keep (is_hashed library patterns) fs
  unfolding insert_sorted
  keep-insert_sorted patterns f [] h = rw (h) refl
  keep-insert_sorted patterns f (g ∷ gs) h =
      let later = keep-insert_sorted patterns f gs h in
      elim (Bool-cases (library.path_leb f g)) [
        | inl first ↦ rw (first, h) refl
        | inr after ↦ elim (Bool-cases (is_hashed library patterns g)) [
          | inl hashed ↦ rw (after, hashed) (ap (◌∷◌ g) later)
          | inr skipped ↦ rw (after, skipped) later
        ]
      ]

  pub hashed_files-skip :
      (patterns : List String) (f : TreeFile) (fs : List TreeFile)
      → is_hashed library patterns f ≡ false
      → hashed_files library patterns (f ∷ fs) ≡ hashed_files library patterns fs
  unfolding hashed_files sort_by
  hashed_files-skip patterns f fs h = keep-insert_sorted patterns f (sort_by library.path_leb fs) h
