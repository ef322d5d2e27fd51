-- ===== src/Oracle/Run/Evaluate.antt =====
-- `evaluate` itself: the checks before the run, the opening and closing of the targets, the
-- handler of a failure, and the result document; `_target` says which target a name stands for.
use os_bench.Common.{
  ℕ, zero, suc, String, Bool, true, false, not, ◌&&◌, List, [], ◌∷◌, ◌==◌, Option, none, some, Dict,
  length, if◌then◌else◌,
}
use os_bench.Common.Int.{ℤ, pos, negsuc}
use os_bench.Common.Result.{
  Result, ok, err, Error, file_not_found, value_error, ◌>>=◌, ◌>>◌, raise_if,
}
use os_bench.Contracts.Model.{Contract, contracts_by_id}
use os_bench.Contracts.Validate.{ContractReport, valid}
use os_bench.Oracle.Aggregate.{Aggregate, aggregate_contract_results}
use os_bench.Oracle.Manifest.{Manifest, verify_public_dataset}
use os_bench.Oracle.Selection.{Case, select_cases, natural}
use os_bench.Oracle.Run.State.{
  Plan, Run, CaseRun, Unsupported, SelectionDocument, unsupported_ids, run_started, run_failed,
  run_completed, persist, log, selection_document, case_results_of,
}
use os_bench.Oracle.Run.Cases.{Target, Reading, Stepped, continues, raises, run_cases}
use os_bench.Results.{ResultsDocument}
use os_bench.Scoring.{Scores, score_results}
use os_bench.Trajectory.{Metrics, result_metrics}

-- which target `_target` makes
pub data TargetKind : Type 0 where
  local : TargetKind
  qemu : String → TargetKind

-- what the host has: the reference image, the mode of OSBENCH_REFERENCE_MODE in lower case, and
-- the file that a path names, resolved
pub record Host : Type 0 where
  pub reference_image : Option String
  pub mode : String
  pub file : String → Option String

unfoldable pub target_kind : Host → String → Result TargetKind
target_kind host specification =
    if specification == "reference"
    then (if host.mode == "local" then ok local else elim host.reference_image [
      | some image ↦ ok (qemu image)
      | none ↦
          if host.mode == "auto"
          then ok local
          else err (file_not_found "Pinned reference image is missing")
    ])
    else elim (host.file specification) [
      | some path ↦ ok (qemu path)
      | none ↦ err (file_not_found "Unknown target or missing image")
    ]

pub record Document (Value : Type 0) : Type 0 where
  pub reference_target : String
  pub candidate_target : String
  pub selection : SelectionDocument
  pub scores : Scores
  pub trajectory : Metrics
  pub contracts : Dict Aggregate
  pub cases : List (CaseRun Value)
  pub unsupported : List Unsupported

-- The document as `validate_results` and `merge_results` read it.
abbrev pub as_results : {Value : Type 0} → Document Value → ResultsDocument
as_results d = record {
  fields =
      "schema_version" ∷ "benchmark_version" ∷ "reference_id" ∷ "run_id" ∷ "started_at_unix"
      ∷ "host" ∷ "reference_target" ∷ "candidate_target" ∷ "selection" ∷ "scores" ∷ "trajectory"
      ∷ "contracts" ∷ "cases" ∷ "unsupported" ∷ "raw_observations" ∷ "progress" ∷ [];
  schema_version = some "osbench.results.v1";
  benchmark_version = some "0.1.0";
  requested = some d.selection.requested_cases;
  dataset_sha256 = some d.selection.dataset_sha256;
  cases = case_results_of d.cases;
  unsupported = unsupported_ids d.unsupported;
}

pub data Role : Type 0 where
  the_reference the_candidate : Role

-- A run that has ended: its state, and the document or the exception that left the function.
pub record Ended (Value Observation : Type 0) : Type 0 where
  pub run : Run Value Observation
  pub outcome : Result (Document Value)

-- the same, with the targets that were asked to close, in order
pub record Evaluated (Value Observation : Type 0) : Type 0 where
  pub run : Run Value Observation
  pub closed : List Role
  pub outcome : Result (Document Value)

-- the targets that a `finally` asked to close, and what that came to
pub record Closing : Type 0 where
  pub closed : List Role
  pub outcome : Result (Unit {0})

-- `_close` of one target after another; where one raises, those after it are not asked
unfoldable pub close_targets : List (Role × Result (Unit {0})) → Closing
close_targets [] = record { closed = []; outcome = ok tt }
close_targets ((role, ok done) ∷ others) =
    let rest = close_targets others in
    record { closed = role ∷ rest.closed; outcome = rest.outcome }
close_targets ((role, err e) ∷ others) = record { closed = role ∷ []; outcome = err e }

module _ {Value Observation : Type 0} (below : ℕ → ℕ → Bool) (plan : Plan)
    (contracts : Dict Contract) (reading : Reading Value Observation) where
  unfoldable pub empty_run : Run Value Observation
  empty_run = record {
    position = 0;
    current_case_id = none;
    reuse = false;
    case_results = [];
    unsupported = [];
    raw_reference = [];
    raw_candidate = [];
    oracle_queries = 0;
    journal = [];
    reference_progress = [];
    candidate_progress = [];
    states = [];
    partials = [];
  }

  unfoldable pub started_run : Run Value Observation
  unfolding empty_run
  started_run =
      persist plan "starting" none true
        (log (run_started (length plan.selected) plan.shard_count plan.shard_index) empty_run)

  -- `except BaseException`; the `finally` that follows is in `run_selected`
  unfoldable pub fail_run : Run Value Observation → Error → Ended Value Observation
  fail_run s error = record {
    run =
        persist plan "failed" (some error) true
          (log (run_failed s.position s.current_case_id error) s);
    outcome = err error;
  }

  unfoldable pub result_document :
      String → String → String → Scores → Run Value Observation → Document Value
  result_document target_spec reference_name candidate_name scores s =
      let aggregates = aggregate_contract_results (case_results_of s.case_results) in
      record {
        reference_target = reference_name;
        candidate_target = candidate_name;
        selection = selection_document plan s;
        scores = scores;
        trajectory = result_metrics aggregates (length s.case_results) s.oracle_queries target_spec;
        contracts = aggregates;
        cases = s.case_results;
        unsupported = s.unsupported;
      }

  -- what follows the `try`
  unfoldable pub finish_run :
      String → String → String → Run Value Observation → Ended Value Observation
  unfolding result_document
  finish_run target_spec reference_name candidate_name run =
      let s = record run { current_case_id = none } in
      elim (score_results below (case_results_of s.case_results) contracts) [
        | err e ↦ record { run = s; outcome = err e }
        | ok scores ↦ record {
          run =
              persist plan "completed" none true
                (log (run_completed s.position (length s.case_results) (length s.unsupported)) s);
          outcome = ok (result_document target_spec reference_name candidate_name scores s);
        }
      ]

  -- the body of the `try` once both targets are open
  abbrev pub run_loop : Bool → Target Observation → Target Observation → Stepped Value Observation
  run_loop same_spec reference candidate =
      let reuse = same_spec && (reference.is_local && candidate.is_local) in
      let s = persist plan "running" none false (record (started_run) { reuse = reuse }) in
      run_cases plan contracts reading reference candidate 0 plan.selected s

  -- the loop and what follows it where the closing of the targets returns
  unfoldable pub run_targets :
      String → Bool → Target Observation → Target Observation → Ended Value Observation
  unfolding fail_run finish_run started_run
  run_targets target_spec same_spec reference candidate =
      elim (run_loop same_spec reference candidate) [
        | continues t ↦ finish_run target_spec reference.name candidate.name t
        | raises t e ↦ fail_run t e
      ]

  -- the loop and what follows it where the closing raises: the handler has run if the loop raised,
  -- and the exception of the closing leaves the function
  unfoldable pub broken_close :
      Bool → Target Observation → Target Observation → Error → Ended Value Observation
  unfolding fail_run started_run
  broken_close same_spec reference candidate error = elim (run_loop same_spec reference candidate) [
    | continues t ↦ record { run = t; outcome = err error }
    | raises t e ↦ record (fail_run t e) { outcome = err error }
  ]

  -- an end with a `finally`
  abbrev pub with_closing :
      Closing
      → Ended Value Observation
      → (Error → Ended Value Observation)
      → Evaluated Value Observation
  with_closing closing returns breaks = elim closing.outcome [
    | ok done ↦ record { run = returns.run; closed = closing.closed; outcome = returns.outcome }
    | err e ↦ record { run = (breaks e).run; closed = closing.closed; outcome = (breaks e).outcome }
  ]

  -- `open_target` is `_target` with the classes of src/osbench/targets.py
  unfoldable pub run_selected :
      (String → Result (Target Observation)) → String → String → Evaluated Value Observation
  unfolding run_targets fail_run started_run
  run_selected open_target reference_spec target_spec = elim (open_target reference_spec) [
    | err e ↦
        with_closing (close_targets []) (fail_run started_run e)
          (λ x. record (fail_run started_run e) { outcome = err x })
    | ok reference ↦ elim (open_target target_spec) [
      | err e ↦
          with_closing (close_targets ((the_reference, reference.close) ∷ []))
            (fail_run started_run e) (λ x. record (fail_run started_run e) { outcome = err x })
      | ok candidate ↦
          let same_spec = target_spec == reference_spec in
          with_closing
            (close_targets
              ((the_reference, reference.close) ∷ (the_candidate, candidate.close) ∷ []))
            (run_targets target_spec same_spec reference candidate)
            (λ x. broken_close same_spec reference candidate x)
    ]
  ]

-- the arguments of `evaluate`
pub record Request : Type 0 where
  pub target_spec : String
  pub reference_spec : String
  pub max_cases : Option ℤ
  pub one_per_contract : Bool
  pub shard_count : ℤ
  pub shard_index : ℤ

-- the public dataset and its digests
pub record Dataset : Type 0 where
  pub corpus : List Case
  pub count_text : String
  pub dataset_sha256 : String
  pub dataset_file_sha256 : String
  pub contract_corpus_sha256 : String
  pub manifest : Option Manifest

-- `max(1, int(…))`
abbrev pub at_least_one : ℤ → ℕ
at_least_one (pos zero) = 1
at_least_one (pos (suc n)) = suc n
at_least_one (negsuc n) = 1

abbrev pub plan_of : Request → Dataset → ℤ → List Case → Plan
plan_of request dataset checkpoint_every selected = record {
  selected = selected;
  corpus_cases = length dataset.corpus;
  one_per_contract = request.one_per_contract;
  max_cases = request.max_cases;
  shard_count = natural request.shard_count;
  shard_index = natural request.shard_index;
  dataset_sha256 = dataset.dataset_sha256;
  dataset_file_sha256 = dataset.dataset_file_sha256;
  contract_corpus_sha256 = dataset.contract_corpus_sha256;
  checkpoint_every = at_least_one checkpoint_every;
}

-- What is raised before the run has a directory is the error of the outer result.
unfoldable pub evaluate :
    {Value Observation : Type 0}
    → (ℕ → ℕ → Bool)
    → (String → ℕ)
    → Reading Value Observation
    → (String → Result (Target Observation))
    → ℤ
    → Dataset
    → ContractReport
    → Request
    → Result (Evaluated Value Observation)
unfolding run_selected
evaluate below digest reading open_target checkpoint_every dataset report request =
    raise_if (not (valid report)) (value_error "Contract corpus is invalid")
    >> verify_public_dataset dataset.manifest (length dataset.corpus) dataset.count_text
        dataset.dataset_file_sha256 dataset.contract_corpus_sha256
    >> (select_cases digest dataset.corpus request.one_per_contract request.max_cases
          request.shard_count request.shard_index
        >>= λ selected. ok (
            run_selected below (plan_of request dataset checkpoint_every selected)
              (contracts_by_id report.contracts) reading open_target request.reference_spec
              request.target_spec))
