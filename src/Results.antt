-- ===== src/Results.antt =====
-- `validate_results` and `merge_results` of src/osbench/results.py.
pub mod Valid
pub mod Merged
use os_bench.Common.{
  ℕ, ◌+◌, String, Bool, true, false, not, ◌&&◌, List, [], ◌∷◌, ◌++◌, ◌==◌, Option, none, some, Dict,
  elem, nodup, all, length, nat_eq, if◌then◌else◌,
}
use os_bench.Common.Result.{Result, ok, err, Error, value_error, ◌>>=◌, ◌>>◌, raise_if}
use os_bench.Common.Text.{concat}
use os_bench.Contracts.Model.{Contract}
use os_bench.Oracle.Aggregate.{CaseResult, Aggregate, aggregate_contract_results}
use os_bench.Scoring.{Scores, score_results}

-- A results document: its keys, and what `.get` gives for those that are read. `requested` is
-- there when it is an integer; documents with `cases` of other shapes raise and are left out.
pub record ResultsDocument : Type 0 where
  pub fields : List String
  pub schema_version : Option String
  pub benchmark_version : Option String
  pub requested : Option ℕ
  pub dataset_sha256 : Option String
  pub cases : List CaseResult
  pub unsupported : List String

abbrev pub required : List String
required =
    "schema_version" ∷ "benchmark_version" ∷ "run_id" ∷ "scores" ∷ "selection" ∷ "cases"
    ∷ "unsupported" ∷ []

unfoldable pub missing_issues : List String → List String → List String
missing_issues fields [] = []
missing_issues fields (key ∷ rest) =
    let others = missing_issues fields rest in
    if not (elem key fields) then concat ("missing " ∷ key ∷ []) ∷ others else others

-- `if bad: issues.append(…)`
abbrev pub append_if : Bool → String → List String
append_if bad message = if bad then message ∷ [] else []

abbrev pub is_schema : Option String → Bool
is_schema none = false
is_schema (some version) = version == "osbench.results.v1"

-- `isinstance(requested, int) and requested != len(…) + len(…)`
abbrev pub is_mismatch : Option ℕ → ℕ → Bool
is_mismatch none counted = false
is_mismatch (some requested) counted = not (nat_eq requested counted)

abbrev pub case_ids : List CaseResult → List String
case_ids [] = []
case_ids (c ∷ cs) = c.case_id ∷ case_ids cs

-- the issues; the document is valid when there are none
unfoldable pub validate_results : ResultsDocument → List String
unfolding missing_issues
validate_results result =
    missing_issues result.fields required
    ++ (append_if (not (is_schema result.schema_version)) "unsupported schema_version"
        ++ (append_if
              (is_mismatch result.requested (length result.cases + length result.unsupported))
              "case accounting mismatch"
            ++ append_if (not (nodup (case_ids result.cases))) "duplicate evaluated case_id"))

unfoldable pub merged_cases : List ResultsDocument → List CaseResult
merged_cases [] = []
merged_cases (d ∷ ds) = d.cases ++ merged_cases ds

unfoldable pub merged_unsupported : List ResultsDocument → List String
merged_unsupported [] = []
merged_unsupported (d ∷ ds) = d.unsupported ++ merged_unsupported ds

abbrev pub same_version : Option String → Option String → Bool
same_version none none = true
same_version none (some w) = false
same_version (some v) none = false
same_version (some v) (some w) = v == w

pub record MergedDocument : Type 0 where
  pub document : ResultsDocument
  pub scores : Scores
  pub contracts : Dict Aggregate

-- `base`: the first document with the members that `merge_results` sets
unfoldable pub merged_document : ResultsDocument → List ResultsDocument → ResultsDocument
unfolding merged_cases merged_unsupported
merged_document first documents = record first {
  fields =
      "cases" ∷ "unsupported" ∷ "merged_from" ∷ "run_id" ∷ "selection" ∷ "scores" ∷ "contracts"
      ∷ first.fields;
  requested = some (length (merged_cases documents) + length (merged_unsupported documents));
  cases = merged_cases documents;
  unsupported = merged_unsupported documents;
}

unfoldable pub merge_results :
    (ℕ → ℕ → Bool) → Dict Contract → List ResultsDocument → Result MergedDocument
unfolding merged_document
merge_results below contracts [] = err (value_error "no result files")
merge_results below contracts (first ∷ rest) =
    raise_if
      (not (
        all (λ (d : ResultsDocument). same_version first.benchmark_version d.benchmark_version)
          rest))
      (value_error "incompatible benchmark versions")
    >> (score_results below (merged_cases (first ∷ rest)) contracts >>= λ scores. ok (record {
      document = merged_document first (first ∷ rest);
      scores = scores;
      contracts = aggregate_contract_results (merged_cases (first ∷ rest));
    }))
