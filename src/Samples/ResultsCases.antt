-- ===== src/Samples/ResultsCases.antt =====
-- The theorems on src/osbench/results.py for two shards of one case each.
use os_bench.Common.{
  ℕ, ◌≡◌, refl, ◌↔◌, Bool, true, false, List, [], ◌∷◌, ◌*◌, some, none, Dict, ltb, nodup,
}
use os_bench.Common.Result.{ok}
use os_bench.Contracts.Model.{Contract}
use os_bench.Oracle.Aggregate.{CaseResult, aggregate_contract_results}
use os_bench.Scoring.{score_results, collect, document}
use os_bench.Results.{
  ResultsDocument, MergedDocument, required, case_ids, missing_issues, merged_cases,
  merged_document, merge_results, validate_results,
}
use os_bench.Results.Merged.{merge_results-valid}
use os_bench.Samples.Corpus.{contract}

abbrev below : ℕ → ℕ → Bool
below passed total = ltb (passed * 10) (total * 9)

abbrev contracts : Dict Contract
contracts = ("init", contract "init" []) ∷ ("cpu", contract "cpu" []) ∷ []

abbrev init_result : CaseResult
init_result = record { case_id = "init-1"; contract = "init"; passed = true }

abbrev cpu_result : CaseResult
cpu_result = record { case_id = "cpu-1"; contract = "cpu"; passed = false }

abbrev shard : CaseResult → ResultsDocument
shard result = record {
  fields = required;
  schema_version = some "osbench.results.v1";
  benchmark_version = some "0.1.0";
  requested = some 1;
  dataset_sha256 = none;
  cases = result ∷ [];
  unsupported = [];
}

abbrev shards : List ResultsDocument
shards = shard init_result ∷ shard cpu_result ∷ []

abbrev merged : MergedDocument
merged = record {
  document = merged_document (shard init_result) shards;
  scores =
      document below (init_result ∷ cpu_result ∷ []) contracts
        (("init", init_result ∷ []) ∷ ("cpu", cpu_result ∷ []) ∷ []);
  contracts = aggregate_contract_results (init_result ∷ cpu_result ∷ []);
}

shards_merge : merge_results below contracts shards ≡ ok merged
unfolding merge_results merged_cases score_results collect
shards_merge = refl

shard_issues : validate_results (shard init_result) ≡ []
unfolding validate_results missing_issues
shard_issues = refl

merge_results-valid_example :
    (validate_results merged.document ≡ []) ↔ (nodup (case_ids (merged_cases shards)) ≡ true)
merge_results-valid_example =
    merge_results-valid below contracts (shard init_result) (shard cpu_result ∷ []) merged
      shards_merge shard_issues
