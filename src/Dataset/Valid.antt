-- ===== src/Dataset/Valid.antt =====
-- When `validate_dataset` finds nothing.
use os_bench.Common.{
  ℕ, suc, String, ◌≡◌, refl, ap, sym, ◌∙◌, ◌↔◌, Bool, true, false, not, ◌&&◌, List, [], ◌∷◌, ◌++◌,
  ◌==◌, eq_iff, elem, all, keep, length, Option, none, some, nat_eq_iff, Bool-cases, Bool-eq_of_iff,
  and-true, inl, inr, arith,
}
use os_bench.Common.Sort.{sorted}
use os_bench.Dataset.{
  Row, DatasetFile, DatasetManifest, DatasetIssue, missing_members, unknown_contract,
  duplicate_case_id, case_count_mismatch, cases_sha256_mismatch, required_members, missing_of,
  is_known, same_id, seen_id, is_empty, issue_when, row_issues, rows_issues, is_count, is_sha,
  manifest_issues, validate_dataset,
}

-- a line with the required members and a Contract of the corpus
abbrev pub is_complete : List String → Row → Bool
is_complete known row =
    all (λ name. elem name row.members) required_members && is_known known row.contract

-- no two lines have the same id
abbrev pub differ : Row → Row → Bool
differ row other = not (same_id row.case_id other.case_id)

abbrev pub distinct_ids : List Row → Bool
distinct_ids [] = true
distinct_ids (row ∷ rows) = all (λ other. differ row other) rows && distinct_ids rows

-- no line has one of the ids
abbrev avoids : List (Option String) → List Row → Bool
avoids ids rows = all (λ row. not (seen_id row.case_id ids)) rows

is_empty-append : (xs ys : List DatasetIssue) → is_empty (xs ++ ys) ≡ (is_empty xs && is_empty ys)
is_empty-append [] ys = refl
is_empty-append (x ∷ xs) ys = refl

is_empty-issue_when :
    (bad : Bool) (issue : DatasetIssue) → is_empty (issue_when bad issue) ≡ not bad
is_empty-issue_when true issue = refl
is_empty-issue_when false issue = refl

is_empty-keep :
    (test : String → Bool) (xs : List String) → is_empty (keep (λ x. not (test x)) xs) ≡ all test xs
is_empty-keep test [] = refl
is_empty-keep test (x ∷ xs) = elim (Bool-cases (test x)) [
  | inl e ↦ rw e (is_empty-keep test xs)
  | inr e ↦ rw e refl
]

same_id_comm : (j k : Option String) → same_id j k ≡ same_id k j
same_id_comm none none = refl
same_id_comm none (some k) = refl
same_id_comm (some j) none = refl
same_id_comm (some j) (some k) =
    Bool-eq_of_iff (j == k) (k == j) (λ h. ground (arith, eq_iff j k, eq_iff k j))
      (λ h. ground (arith, eq_iff j k, eq_iff k j))

avoids-cons :
    (row : Row) (ids : List (Option String)) (rows : List Row)
    → avoids (row.case_id ∷ ids) rows ≡ (all (λ other. differ row other) rows && avoids ids rows)
avoids-cons row ids [] = refl
avoids-cons row ids (r ∷ rs) =
    ground (arith, avoids-cons row ids rs, same_id_comm row.case_id r.case_id)

and_rearranged :
    (m k s d c a p : Bool)
    → ((m && (k && not s)) && (c && ((d && a) && p)))
      ≡ (((m && k) && c) && ((not s && a) && (d && p)))
and_rearranged m k s d c a p = ground arith

three_checks :
    (a b c : Bool) (x y z : DatasetIssue)
    → is_empty (issue_when (not a) x ++ (issue_when (not b) y ++ issue_when c z))
      ≡ (a && (b && not c))
three_checks false b c x y z = refl
three_checks true false c x y z = refl
three_checks true true false x y z = refl
three_checks true true true x y z = refl

row_issues-is_empty :
    (known : List String) (i : ℕ) (ids : List (Option String)) (row : Row)
    → is_empty (row_issues known i ids row) ≡ (
        all (λ name. elem name row.members) required_members
        && (is_known known row.contract && not (seen_id row.case_id ids)))
unfolding row_issues
row_issues-is_empty known i ids row =
    three_checks (is_empty (missing_of row)) (is_known known row.contract) (seen_id row.case_id ids)
      (missing_members i (sorted (missing_of row))) (unknown_contract i) (duplicate_case_id i)
    ∙ ap (λ b. b && (is_known known row.contract && not (seen_id row.case_id ids)))
        (is_empty-keep (λ name. elem name row.members) required_members)

rows_issues-is_empty :
    (known : List String) (done : ℕ) (ids : List (Option String)) (rows : List Row)
    → is_empty (rows_issues known done ids rows)
      ≡ (all (is_complete known) rows && (avoids ids rows && distinct_ids rows))
unfolding rows_issues
rows_issues-is_empty known done ids [] = refl
rows_issues-is_empty known done ids (row ∷ rows) =
    is_empty-append (row_issues known (suc done) ids row) _
    ∙ rw
        (
          row_issues-is_empty known (suc done) ids row,
          rows_issues-is_empty known (suc done) (row.case_id ∷ ids) rows,
          avoids-cons row ids rows,
        )
        (and_rearranged (all (λ name. elem name row.members) required_members)
          (is_known known row.contract) (seen_id row.case_id ids)
          (all (λ other. differ row other) rows) (all (is_complete known) rows) (avoids ids rows)
          (distinct_ids rows))

avoids_none : (rows : List Row) → avoids [] rows ≡ true
avoids_none [] = refl
avoids_none (r ∷ rs) = avoids_none rs

is_empty-nil : (xs : List DatasetIssue) → (xs ≡ []) ↔ (is_empty xs ≡ true)
is_empty-nil [] = (λ h. refl, λ h. refl)
is_empty-nil (x ∷ xs) = (λ h. absurd (cc h), λ h. absurd (cc h))

-- the manifest is about the file
abbrev pub DescribesFile : Option DatasetManifest → DatasetFile → Type 0
DescribesFile manifest file =
    (m : DatasetManifest)
    → manifest ≡ some m
    → (m.case_count ≡ some (length file.rows)) × (m.cases_sha256 ≡ some file.sha256)

is_count_iff : (o : Option ℕ) (n : ℕ) → (is_count o n ≡ true) ↔ (o ≡ some n)
is_count_iff none n = (λ h. absurd (cc h), λ h. absurd (cc h))
is_count_iff (some m) n = (λ h. ap some ((nat_eq_iff m n).0 h), λ h. (nat_eq_iff m n).1 (cc h))

is_sha_iff : (o : Option String) (digest : String) → (is_sha o digest ≡ true) ↔ (o ≡ some digest)
is_sha_iff none digest = (λ h. absurd (cc h), λ h. absurd (cc h))
is_sha_iff (some s) digest = (λ h. ap some ((eq_iff s digest).0 h), λ h. (eq_iff s digest).1 (cc h))

two_checks :
    (a b : Bool) (x y : DatasetIssue)
    → is_empty (issue_when (not a) x ++ issue_when (not b) y) ≡ (a && b)
two_checks false b x y = refl
two_checks true false x y = refl
two_checks true true x y = refl

manifest_issues-DescribesFile :
    (manifest : Option DatasetManifest) (file : DatasetFile)
    → (is_empty (manifest_issues manifest file) ≡ true) ↔ DescribesFile manifest file
unfolding manifest_issues
manifest_issues-DescribesFile none file = (λ h m e. absurd (cc e), λ h. refl)
manifest_issues-DescribesFile (some m) file =
    let count = is_count_iff m.case_count (length file.rows) in
    let sha = is_sha_iff m.cases_sha256 file.sha256 in
    let checks =
      two_checks (is_count m.case_count (length file.rows)) (is_sha m.cases_sha256 file.sha256)
        case_count_mismatch cases_sha256_mismatch in
    (
      λ h n e.
          let same : m ≡ n = cc e in
          let (x, y) = and-true _ _ (sym checks ∙ h) in rw (← same) (count.0 x, sha.0 y),
      λ h. let (x, y) = h m refl in checks ∙ rw (count.1 x, sha.1 y) refl,
    )

-- `validate_dataset` finds no issue exactly if there is a file, each of its lines has the
-- required members and names a Contract of the corpus, no two lines have the same case id (a line
-- without one counts as having the id `None`), and the manifest, where there is one to look at,
-- states the number of lines and the digest of the file.
pub validate_dataset_correct :
    (known : List String) (manifest : Option DatasetManifest) (source : Option DatasetFile)
    → (validate_dataset known manifest source ≡ []) ↔ (
        (file : DatasetFile) × (source ≡ some file)
        × (all (is_complete known) file.rows ≡ true)
        × (distinct_ids file.rows ≡ true)
        × DescribesFile manifest file)
unfolding validate_dataset
validate_dataset_correct known manifest none =
    (λ h. absurd (cc h), λ (file, found, complete, distinct, described). absurd (cc found))
validate_dataset_correct known manifest (some file) =
    let nothing =
      is_empty-nil (rows_issues known 0 [] file.rows ++ manifest_issues manifest file) in
    let parts =
      is_empty-append (rows_issues known 0 [] file.rows) (manifest_issues manifest file) in
    let rows = rows_issues-is_empty known 0 [] file.rows in
    let all_avoid = avoids_none file.rows in
    let described = manifest_issues-DescribesFile manifest file in
    (
      λ h.
          let (x, y) = and-true _ _ (sym parts ∙ nothing.0 h) in
          let (complete, rest) =
            and-true (all (is_complete known) file.rows)
              (avoids [] file.rows && distinct_ids file.rows) (sym rows ∙ x) in
          let (free, distinct) = and-true (avoids [] file.rows) (distinct_ids file.rows) rest in
          (file, refl, complete, distinct, described.0 y),
      λ (f, found, complete, distinct, agrees).
          let same : f ≡ file = cc found in
          let complete' : all (is_complete known) file.rows ≡ true = rw (← same) complete in
          let distinct' : distinct_ids file.rows ≡ true = rw (← same) distinct in
          let agrees' : DescribesFile manifest file = rw (← same) agrees in
          let clean : is_empty (rows_issues known 0 [] file.rows) ≡ true =
            rw rows (rw (complete', all_avoid, distinct') refl) in
          nothing.1 (parts ∙ rw (clean, described.1 agrees') refl),
    )
