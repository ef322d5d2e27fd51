-- ===== src/Samples/SelfTestCases.antt =====
-- The theorem on src/osbench/full_selftest.py at two shards, of which the second ends first.
use os_bench.Common.{
  ℕ, ◌≡◌, refl, Bool, true, false, List, [], ◌∷◌, ◌*◌, Option, some, none, Dict, ltb, all,
}
use os_bench.Common.Sort.{sort_by, insert_sorted}
use os_bench.Common.Text.{text_leb}
use os_bench.Common.Result.{ok}
use os_bench.Contracts.Model.{Contract}
use os_bench.Oracle.Aggregate.{CaseResult}
use os_bench.Scoring.{score_results, collect}
use os_bench.Results.{
  ResultsDocument, required, missing_issues, merged_cases, merged_unsupported, merged_document,
  merge_results, validate_results,
}
use os_bench.SelfTest.{ShardEnd, wrote, SelfTestReport, is_empty, run_selftest}
use os_bench.SelfTest.Passes.{shard_passed, run_selftest-passed}
use os_bench.Samples.Corpus.{contract}

abbrev below : ℕ → ℕ → Bool
below passed total = ltb (passed * 10) (total * 9)

abbrev contracts : Dict Contract
contracts = ("init", contract "init" []) ∷ ("cpu", contract "cpu" []) ∷ []

abbrev shard : CaseResult → ResultsDocument
shard result = record {
  fields = required;
  schema_version = some "osbench.results.v1";
  benchmark_version = some "0.1.0";
  requested = some 1;
  dataset_sha256 = none;
  cases = result ∷ [];
  unsupported = [];
}

abbrev ends : List (ℕ × ShardEnd)
ends =
    (
      1,
      wrote "shard-001.json"
          (shard (record { case_id = "cpu-1"; contract = "cpu"; passed = true })),
    )
    ∷ (
      0,
      wrote "shard-000.json"
          (shard (record { case_id = "init-1"; contract = "init"; passed = true })),
    )
    ∷ []

tested : (r : SelfTestReport) × (run_selftest below contracts ends none ≡ ok r) × (r.passed ≡ true)
unfolding run_selftest merge_results merged_document merged_cases merged_unsupported score_results
    collect validate_results missing_issues sort_by insert_sorted text_leb
tested = (_, refl, refl)

abbrev nothing_pending : Option (List ℕ)
nothing_pending = none

run_selftest-passed_example :
    (nothing_pending ≡ none)
    × (is_empty ends ≡ false)
    × (all shard_passed ends ≡ true)
    × (tested.0.issues ≡ [])
    × (tested.0.shard_errors ≡ [])
run_selftest-passed_example =
    run_selftest-passed below contracts ends nothing_pending tested.0 tested.1 tested.2
