-- ===== src/Dataset.antt =====
-- `validate_dataset` of src/osbench/dataset.py.
pub mod Valid
pub mod Generate
pub mod Schedule
pub mod Generated
pub mod Build
pub mod RoundTrip
use os_bench.Common.{
  ℕ, suc, String, Bool, true, false, not, ◌&&◌, ◌||◌, List, [], ◌∷◌, ◌++◌, ◌==◌, elem, keep, length,
  Option, none, some, nat_eq, if◌then◌else◌,
}
use os_bench.Common.Sort.{sorted}

-- A line of the dataset: its keys, and what `.get` gives for the two that are read further.
pub record Row : Type 0 where
  pub members : List String
  pub case_id : Option String
  pub contract : Option String

pub record DatasetFile : Type 0 where
  pub rows : List Row
  pub sha256 : String

pub record DatasetManifest : Type 0 where
  pub case_count : Option ℕ
  pub cases_sha256 : Option String

pub data DatasetIssue : Type 0 where
  missing_file : DatasetIssue
  missing_members : ℕ → List String → DatasetIssue
  unknown_contract duplicate_case_id : ℕ → DatasetIssue
  case_count_mismatch cases_sha256_mismatch : DatasetIssue

abbrev pub required_members : List String
required_members =
    "case_id" ∷ "contract" ∷ "domain" ∷ "level" ∷ "family" ∷ "seed" ∷ "setup" ∷ "stimulus"
    ∷ "expected" ∷ "timeout_seconds" ∷ []

-- `required - set(row)`
abbrev pub missing_of : Row → List String
missing_of row = keep (λ name. not (elem name row.members)) required_members

abbrev pub is_known : List String → Option String → Bool
is_known known none = false
is_known known (some contract) = elem contract known

abbrev pub same_id : Option String → Option String → Bool
same_id none none = true
same_id none (some j) = false
same_id (some k) none = false
same_id (some k) (some j) = k == j

-- `row.get("case_id") in ids`, where `None` is an id like the others
abbrev pub seen_id : Option String → List (Option String) → Bool
seen_id k [] = false
seen_id k (j ∷ js) = same_id k j || seen_id k js

abbrev pub is_empty {ℓ} : {A : Type ℓ} → List A → Bool
is_empty [] = true
is_empty (x ∷ xs) = false

abbrev pub issue_when : Bool → DatasetIssue → List DatasetIssue
issue_when bad issue = if bad then issue ∷ [] else []

-- what is wrong with line `i`
unfoldable pub row_issues : List String → ℕ → List (Option String) → Row → List DatasetIssue
row_issues known i ids row =
    issue_when (not (is_empty (missing_of row))) (missing_members i (sorted (missing_of row)))
    ++ (issue_when (not (is_known known row.contract)) (unknown_contract i)
        ++ issue_when (seen_id row.case_id ids) (duplicate_case_id i))

-- `for i, row in enumerate(rows, 1)`; `done` lines came before, with the ids
unfoldable pub rows_issues : List String → ℕ → List (Option String) → List Row → List DatasetIssue
unfolding row_issues
rows_issues known done ids [] = []
rows_issues known done ids (row ∷ rows) =
    row_issues known (suc done) ids row ++ rows_issues known (suc done) (row.case_id ∷ ids) rows

abbrev pub is_count : Option ℕ → ℕ → Bool
is_count none n = false
is_count (some m) n = nat_eq m n

abbrev pub is_sha : Option String → String → Bool
is_sha none digest = false
is_sha (some s) digest = s == digest

-- The manifest is there when its file exists and the default path was asked for.
unfoldable pub manifest_issues : Option DatasetManifest → DatasetFile → List DatasetIssue
manifest_issues none file = []
manifest_issues (some m) file =
    issue_when (not (is_count m.case_count (length file.rows))) case_count_mismatch
    ++ issue_when (not (is_sha m.cases_sha256 file.sha256)) cases_sha256_mismatch

-- the issues; the dataset is valid when there are none
unfoldable pub validate_dataset :
    List String → Option DatasetManifest → Option DatasetFile → List DatasetIssue
unfolding rows_issues manifest_issues
validate_dataset known manifest none = missing_file ∷ []
validate_dataset known manifest (some file) =
    rows_issues known 0 [] file.rows ++ manifest_issues manifest file
