-- ===== src/Samples/OracleCases.antt =====
-- The theorems on src/osbench/oracle.py and src/osbench/comparators.py at small runs.
use os_bench.Common.{
  ℕ, ◌+◌, ◌<◌, String, ◌≡◌, ◌↔◌, Bool, true, false, not, ◌&&◌, List, [], ◌∷◌, ◌==◌, if◌then◌else◌,
  elem, any, all, count_if, length, lookup, Option, none, some,
}
use os_bench.Common.Int.{pos}
use os_bench.Common.Result.{ok}
use os_bench.Oracle.Manifest.{Manifest}
use os_bench.Oracle.Selection.{Case, select_cases}
use os_bench.Oracle.Selection.Shards.{total, select_cases-partition}
use os_bench.Oracle.Aggregate.{CaseResult, Aggregate, aggregate_contract_results}
use os_bench.Oracle.Aggregate.Correct.{results_of, aggregate_contract_results_correct}
use os_bench.Oracle.Comparison.{Values, agrees, kind_of, compare_observations}
use os_bench.Oracle.Comparison.Closed.{compare_observations_fails_closed}

abbrev digest : String → ℕ
digest id = if id == "boot-1" then 7 else 4

abbrev case : String → String → Case
case id contract = record {
  case_id = id;
  contract = contract;
  case_family = "primitive";
  clean_snapshot = true;
  domain = "process";
  level = "boot";
  family = "primitive";
  probe = none;
}

abbrev cases : List Case
cases = case "boot-1" "boot" ∷ case "boot-2" "boot" ∷ case "fork-1" "fork" ∷ []

select_cases-partition_example :
    (shard : ℕ → List Case) × ((i : ℕ)
      → i < 3
      → select_cases digest cases false none (pos 3) (pos i) ≡ ok (shard i))
    × ((p : Case → Bool) → total (λ i. count_if p (shard i)) 3 ≡ count_if p cases)
select_cases-partition_example = select_cases-partition digest cases 2

abbrev results : List CaseResult
results =
    record { case_id = "boot-1"; contract = "boot"; passed = true }
    ∷ record { case_id = "fork-1"; contract = "fork"; passed = true }
    ∷ record { case_id = "boot-2"; contract = "boot"; passed = false }
    ∷ []

aggregate_contract_results_correct_example :
    ((lookup "boot" (aggregate_contract_results results) ≡ none)
      ↔ (any (λ (r : CaseResult). "boot" == r.contract) results ≡ false))
    × ((a : Aggregate)
        → lookup "boot" (aggregate_contract_results results) ≡ some a
        → (a.passed ≡ all (λ (r : CaseResult). r.passed) (results_of "boot" results))
          × (a.case_count ≡ length (results_of "boot" results))
          × (a.pass_rate.denominator ≡ a.case_count)
          × (a.pass_rate.numerator + length a.failed_cases ≡ a.case_count)
          × ((i : String)
              → elem i a.failed_cases
                ≡ any
                    (λ (r : CaseResult). "boot" == r.contract && (i == r.case_id && not r.passed))
                    results))
aggregate_contract_results_correct_example = aggregate_contract_results_correct results "boot"

-- an observation: its status and what it shows
abbrev values : Values String (Option String × String)
values = record {
  same = λ a b. a == b;
  texts = λ a. a ∷ [];
  within = λ a b. false;
  normalize = λ o. o.1;
  status = λ o. o.0;
  stderr = λ o. "";
}

abbrev reference : Option String × String
reference = (some "ok", "hello")

abbrev candidate : Option String × String
candidate = (some "timeout", "hello")

compare_observations_fails_closed_example :
    (((compare_observations values reference candidate none).0 ≡ true) ↔ (
      (values.status reference ≡ some "ok")
      × (values.status candidate ≡ some "ok")
      × (agrees values (kind_of none) (values.normalize reference) (values.normalize candidate)
          ≡ true)))
    × (((compare_observations values reference candidate none).1 ≡ none)
        ↔ ((compare_observations values reference candidate none).0 ≡ true))
compare_observations_fails_closed_example =
    compare_observations_fails_closed values reference candidate none

abbrev manifest : Manifest
manifest = record {
  case_count = pos 3;
  case_count_text = "3";
  cases_sha256 = some "ab";
  contract_corpus_sha256 = some "cd";
}
