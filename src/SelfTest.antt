-- ===== src/SelfTest.antt =====
-- `run_full_local_selftest` of src/osbench/full_selftest.py, from the ends of its shards on: the
-- shards that completed, in that order, and those that were pending when the time was over.
pub mod Passes
use os_bench.Common.{
  ℕ, String, Bool, true, false, not, ◌&&◌, List, [], ◌∷◌, ◌++◌, map, Dict, Option, none, some,
  count_if, nat_eq,
}
use os_bench.Common.Sort.{sort_by}
use os_bench.Common.Text.{text_leb}
use os_bench.Common.Result.{Result, ok, err, Error, ◌>>=◌}
use os_bench.Contracts.Model.{Contract}
use os_bench.Oracle.Aggregate.{CaseResult}
use os_bench.Results.{ResultsDocument, MergedDocument, merge_results, validate_results}

-- what a future gives: the path and the document that `evaluate` wrote there, or an exception
pub data ShardEnd : Type 0 where
  wrote : String → ResultsDocument → ShardEnd
  failed : Error → ShardEnd

-- an entry of `errors`
pub data ShardError : Type 0 where
  shard_failed : ℕ → Error → ShardError
  timed_out : List ℕ → ShardError

-- an entry of `issues`
pub data SelfTestIssue : Type 0 where
  shard_issue : ShardError → SelfTestIssue
  no_shard_completed : SelfTestIssue
  document_issue : String → SelfTestIssue

-- `shard_errors` is empty where the report has no such member
pub record SelfTestReport : Type 0 where
  pub issues : List SelfTestIssue
  pub shard_errors : List ShardError
  pub passed : Bool

-- `paths`, each with what is in the file
abbrev pub shard_results : List (ℕ × ShardEnd) → List (String × ResultsDocument)
shard_results [] = []
shard_results ((index, wrote path document) ∷ ends) = (path, document) ∷ shard_results ends
shard_results ((index, failed e) ∷ ends) = shard_results ends

abbrev pub pending_errors : Option (List ℕ) → List ShardError
pending_errors none = []
pending_errors (some pending) = timed_out pending ∷ []

-- `errors`
abbrev pub shard_errors : List (ℕ × ShardEnd) → Option (List ℕ) → List ShardError
shard_errors [] pending = pending_errors pending
shard_errors ((index, wrote path document) ∷ ends) pending = shard_errors ends pending
shard_errors ((index, failed e) ∷ ends) pending = shard_failed index e ∷ shard_errors ends pending

abbrev pub path_leb : String × ResultsDocument → String × ResultsDocument → Bool
path_leb a b = text_leb a.0 b.0

abbrev pub documents_of : List (String × ResultsDocument) → List ResultsDocument
documents_of [] = []
documents_of ((path, document) ∷ rest) = document ∷ documents_of rest

abbrev pub is_empty {ℓ} : {A : Type ℓ} → List A → Bool
is_empty [] = true
is_empty (x ∷ xs) = false

abbrev pub count_failed : List CaseResult → ℕ
count_failed cases = count_if (λ (c : CaseResult). not c.passed) cases

-- `errors or ["no shard completed"]`
abbrev pub errors_or : List ShardError → List SelfTestIssue
errors_or [] = no_shard_completed ∷ []
errors_or (e ∷ errors) = map shard_issue (e ∷ errors)

-- once something was written: the report on the merged document
abbrev pub merged_report : List ShardError → MergedDocument → SelfTestReport
merged_report errors merged = record {
  issues = map document_issue (validate_results merged.document);
  shard_errors = errors;
  passed =
      is_empty (validate_results merged.document)
      && (is_empty errors && nat_eq (count_failed merged.document.cases) 0);
}

abbrev pub report_on :
    (ℕ → ℕ → Bool)
    → Dict Contract
    → List ShardError
    → List (String × ResultsDocument)
    → Result SelfTestReport
report_on below contracts errors [] =
    ok (record { issues = errors_or errors; shard_errors = []; passed = false })
report_on below contracts errors (shard ∷ shards) =
    merge_results below contracts (documents_of (sort_by path_leb (shard ∷ shards))) >>= λ merged.
    ok (merged_report errors merged)

unfoldable pub run_selftest :
    (ℕ → ℕ → Bool) → Dict Contract → List (ℕ × ShardEnd) → Option (List ℕ) → Result SelfTestReport
run_selftest below contracts ends pending =
    report_on below contracts (shard_errors ends pending) (shard_results ends)
