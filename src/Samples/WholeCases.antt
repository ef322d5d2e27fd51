-- ===== src/Samples/WholeCases.antt =====
-- `evaluate` of src/osbench/oracle.py from a dataset of three cases to its document.
use os_bench.Common.{ℕ, String, ◌≡◌, refl, true, false, [], ◌∷◌, length, some}
use os_bench.Common.Int.{pos}
use os_bench.Common.Result.{Result, ok}
use os_bench.Contracts.Model.{contracts_by_id, insert_all}
use os_bench.Contracts.Validate.{ContractReport, valid}
use os_bench.Oracle.Manifest.{verify_public_dataset}
use os_bench.Oracle.Selection.{select_cases, select_loop}
use os_bench.Oracle.Run.State.{Plan}
use os_bench.Oracle.Run.Cases.{Target}
use os_bench.Oracle.Run.Evaluate.{
  Document, Evaluated, Request, Dataset, plan_of, as_results, close_targets, run_selected, evaluate,
}
use os_bench.Oracle.Run.Accounts.{selected_ids}
use os_bench.Oracle.Run.Correct.{run_targets_completes}
use os_bench.Oracle.Run.Whole.{evaluate-validate_results}
use os_bench.Results.{validate_results}
use os_bench.Samples.Corpus.{corpus}
use os_bench.Samples.RunCases.{case, reading, guest, below}

abbrev report : ContractReport
report = record { contracts = corpus; issues = [] }

abbrev dataset : Dataset
dataset = record {
  corpus = case "a-1" "a" ∷ case "b-1" "b" ∷ case "c-1" "c" ∷ [];
  count_text = "3";
  dataset_sha256 = "d";
  dataset_file_sha256 = "f";
  contract_corpus_sha256 = "k";
  manifest = some (record {
    case_count = pos 3;
    case_count_text = "3";
    cases_sha256 = some "f";
    contract_corpus_sha256 = some "k";
  });
}

abbrev request : Request
request = record {
  target_spec = "image";
  reference_spec = "reference";
  max_cases = some (pos 2);
  one_per_contract = false;
  shard_count = pos 1;
  shard_index = pos 0;
}

abbrev open_target : String → Result (Target String)
open_target name = ok (guest name)

abbrev digest : String → ℕ
digest name = 0

abbrev plan : Plan
plan = plan_of request dataset (pos 25) (case "a-1" "a" ∷ case "b-1" "b" ∷ [])

abbrev ended : Evaluated String String
ended = run_selected below plan (contracts_by_id corpus) reading open_target "reference" "image"

evaluates : evaluate below digest reading open_target (pos 25) dataset report request ≡ ok ended
unfolding evaluate select_cases select_loop verify_public_dataset
evaluates = refl

completes : (d : Document String) × (ended.outcome ≡ ok d)
unfolding run_selected close_targets contracts_by_id insert_all
completes =
    let (d, returned, rest) =
      run_targets_completes below plan (contracts_by_id corpus) reading (guest "reference")
        (guest "image") "image" false (λ n c takes. (c.case_id, refl))
        (λ n c takes. (c.case_id, refl)) refl in
    (d, returned)

evaluate-validate_results_example :
    (valid report ≡ true)
    × (verify_public_dataset dataset.manifest
          (length dataset.corpus)
          dataset.count_text
          dataset.dataset_file_sha256
          dataset.contract_corpus_sha256
        ≡ ok tt)
    × ((reference : Target String) × (candidate : Target String) × (open_target
            request.reference_spec
          ≡ ok reference)
        × (open_target request.target_spec ≡ ok candidate))
    × (validate_results (as_results (completes.0)) ≡ [])
unfolding selected_ids
evaluate-validate_results_example =
    evaluate-validate_results below digest reading open_target (pos 25) dataset report request ended
      (completes.0) refl evaluates (completes.1)
