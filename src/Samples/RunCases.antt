-- ===== src/Samples/RunCases.antt =====
-- The theorems on the run of src/osbench/oracle.py at runs of three cases, of which no target
-- takes the last.
use os_bench.Common.{
  ℕ, ◌*◌, String, ◌≡◌, refl, Bool, true, false, not, [], ◌∷◌, ◌==◌, ltb, keep, length, none, some,
  if◌then◌else◌,
}
use os_bench.Common.Result.{Result, ok, err, runtime_error}
use os_bench.Oracle.Comparison.{Values}
use os_bench.Oracle.Selection.{Case}
use os_bench.Oracle.Run.State.{Plan, case_results_of, unsupported_ids}
use os_bench.Oracle.Run.Cases.{Target, Reading}
use os_bench.Oracle.Run.Evaluate.{Document, Ended, run_targets, run_selected}
use os_bench.Oracle.Run.Journal.{completions, refusals, has_ended, verdicts}
use os_bench.Oracle.Run.Accounts.{selected_ids, is_supported}
use os_bench.Oracle.Run.Correct.{
  run_targets-completions, run_targets_completes, run_targets-selected_ids,
}
use os_bench.Oracle.Run.Closing.{Closes, run_selected-Closes}
use os_bench.Results.{case_ids}
use os_bench.Samples.Corpus.{by_id}

abbrev pub case : String → String → Case
case name contract = record {
  case_id = name;
  contract = contract;
  case_family = "primitive";
  clean_snapshot = true;
  domain = "files";
  level = "L1";
  family = "primitive";
  probe = some "stat";
}

abbrev plan : Plan
plan = record {
  selected = case "a-1" "a" ∷ case "b-1" "b" ∷ case "c-1" "c" ∷ [];
  corpus_cases = 4;
  one_per_contract = false;
  max_cases = none;
  shard_count = 1;
  shard_index = 0;
  dataset_sha256 = "d";
  dataset_file_sha256 = "f";
  contract_corpus_sha256 = "k";
  checkpoint_every = 2;
}

-- an observation is what the case shows
abbrev values : Values String String
values = record {
  same = λ a b. a == b;
  texts = λ a. a ∷ [];
  within = λ a b. false;
  normalize = λ o. o;
  status = λ o. some "ok";
  stderr = λ o. "";
}

abbrev pub reading : Reading String String
reading = record { values = λ contract. values; status = λ o. some "ok"; duration = λ o. some 5 }

abbrev pub guest : String → Target String
guest name = record {
  name = name;
  is_local = false;
  supports = λ c. not (c.contract == "c");
  execute = λ n c. ok c.case_id;
  close = ok tt;
}

-- this one breaks on the second case
abbrev broken : Target String
broken = record {
  name = "broken";
  is_local = false;
  supports = λ c. true;
  execute = λ n c. if c.case_id == "b-1" then err (runtime_error "guest died") else ok "other";
  close = err (runtime_error "guest stays");
}

abbrev pub below : ℕ → ℕ → Bool
below passed total = ltb (passed * 10) (total * 9)

abbrev whole : Ended String String
whole = run_targets below plan by_id reading "image" false (guest "reference") (guest "image")

abbrev cut_short : Ended String String
cut_short = run_targets below plan by_id reading "image" false (guest "reference") broken

run_targets-completions_example :
    (completions cut_short.run.journal ≡ verdicts cut_short.run.case_results)
    × (refusals cut_short.run.journal ≡ cut_short.run.unsupported)
    × (has_ended cut_short.run.journal ≡ true)
run_targets-completions_example =
    run_targets-completions below plan by_id reading (guest "reference") broken "image" false

run_targets_completes_example :
    (d : Document String) × (whole.outcome ≡ ok d)
    × (case_ids (case_results_of d.cases)
        ≡ selected_ids (
            keep
              (is_supported plan by_id reading (guest "reference") (guest "image"))
              plan.selected))
run_targets_completes_example =
    run_targets_completes below plan by_id reading (guest "reference") (guest "image") "image" false
      (λ n c takes. (c.case_id, refl)) (λ n c takes. (c.case_id, refl)) refl

whole_returns : (d : Document String) × (whole.outcome ≡ ok d)
whole_returns =
    let (d, returned, rest) =
      run_targets_completes below plan by_id reading (guest "reference") (guest "image") "image"
        false (λ n c takes. (c.case_id, refl)) (λ n c takes. (c.case_id, refl)) refl in
    (d, returned)

run_targets-selected_ids_example :
    (case_ids (case_results_of (whole_returns.0).cases)
      ≡ selected_ids (
          keep (is_supported plan by_id reading (guest "reference") (guest "image")) plan.selected))
    × (unsupported_ids (whole_returns.0).unsupported
        ≡ selected_ids (
            keep
              (λ c. not (is_supported plan by_id reading (guest "reference") (guest "image") c))
              plan.selected))
    × (whole.run.oracle_queries
        ≡ (if whole.run.reuse then 1 else 2) * length (whole_returns.0).cases)
run_targets-selected_ids_example =
    run_targets-selected_ids below plan by_id reading (guest "reference") (guest "image") "image"
      false (whole_returns.0) (whole_returns.1)

-- the reference cannot be closed
abbrev open_target : String → Result (Target String)
open_target name = if name == "reference" then ok broken else ok (guest name)

run_selected-Closes_example :
    Closes below plan by_id reading open_target "reference" "image"
      (run_selected below plan by_id reading open_target "reference" "image")
run_selected-Closes_example =
    run_selected-Closes below plan by_id reading open_target "reference" "image"
