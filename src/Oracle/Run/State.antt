-- ===== src/Oracle/Run/State.antt =====
-- The local state of `evaluate`, what it writes, and `persist`.
use os_bench.Common.{
  ℕ, ◌%◌, String, Bool, true, false, ◌||◌, List, [], ◌∷◌, ◌++◌, Option, none, some, Dict, length,
  nat_eq, if◌then◌else◌,
}
use os_bench.Common.Int.{ℤ}
use os_bench.Common.Result.{Error}
use os_bench.Oracle.Aggregate.{CaseResult, Rate, Aggregate, aggregate_contract_results}
use os_bench.Oracle.Comparison.{Difference}
use os_bench.Oracle.Selection.{Case}

-- What is fixed during a run. `checkpoint_every` is at least 1.
pub record Plan : Type 0 where
  pub selected : List Case
  pub corpus_cases : ℕ
  pub one_per_contract : Bool
  pub max_cases : Option ℤ
  pub shard_count : ℕ
  pub shard_index : ℕ
  pub dataset_sha256 : String
  pub dataset_file_sha256 : String
  pub contract_corpus_sha256 : String
  pub checkpoint_every : ℕ

-- an entry of the journal, without run id and time
pub data Event : Type 0 where
  run_started : ℕ → ℕ → ℕ → Event
  case_started : ℕ → String → String → Option String → Event
  case_unsupported : ℕ → String → String → Event
  reference_observed : ℕ → String → Option String → Event
  candidate_observed : ℕ → String → Option String → Bool → Event
  case_completed : ℕ → String → Bool → Event
  run_failed : ℕ → Option String → Error → Event
  run_completed : ℕ → ℕ → ℕ → Event

-- an entry of `case_results`
pub record CaseRun (Value : Type 0) : Type 0 where
  pub case_id : String
  pub contract : String
  pub domain : String
  pub level : String
  pub family : String
  pub passed : Bool
  pub difference : Option (Difference Value)
  pub reference_status : Option String
  pub candidate_status : Option String
  pub performance_ratio : Option Rate

pub record Unsupported : Type 0 where
  pub case_id : String
  pub reason : String

-- a row of the two progress files
pub record Progress (Observation : Type 0) : Type 0 where
  pub case_id : String
  pub contract : String
  pub position : ℕ
  pub observation : Observation

pub record SelectionDocument : Type 0 where
  pub corpus_cases : ℕ
  pub requested_cases : ℕ
  pub evaluated_cases : ℕ
  pub unsupported_cases : ℕ
  pub one_per_contract : Bool
  pub max_cases : Option ℤ
  pub shard_count : ℕ
  pub shard_index : ℕ
  pub complete_shard_set : Bool
  pub reused_identical_observations : Bool
  pub dataset_sha256 : String
  pub dataset_file_sha256 : String
  pub contract_corpus_sha256 : String

-- what is written to run.state.json
pub record StateDocument : Type 0 where
  pub status : String
  pub position : ℕ
  pub total : ℕ
  pub current_case_id : Option String
  pub evaluated_cases : ℕ
  pub unsupported_cases : ℕ
  pub error : Option Error

-- what is written to partial.result.json
pub record PartialDocument (Value : Type 0) : Type 0 where
  pub status : String
  pub selection : SelectionDocument
  pub position : ℕ
  pub total : ℕ
  pub current_case_id : Option String
  pub contracts : Dict Aggregate
  pub cases : List (CaseRun Value)
  pub unsupported : List Unsupported
  pub error : Option Error

-- The variables of the run, and the files as what was written to them, oldest first.
pub record Run (Value Observation : Type 0) : Type 0 where
  pub position : ℕ
  pub current_case_id : Option String
  pub reuse : Bool
  pub case_results : List (CaseRun Value)
  pub unsupported : List Unsupported
  pub raw_reference : Dict Observation
  pub raw_candidate : Dict Observation
  pub oracle_queries : ℕ
  pub journal : List Event
  pub reference_progress : List (Progress Observation)
  pub candidate_progress : List (Progress Observation)
  pub states : List StateDocument
  pub partials : List (PartialDocument Value)

-- an entry as the aggregation and the scoring read it
abbrev pub case_result : {Value : Type 0} → CaseRun Value → CaseResult
case_result c = record { case_id = c.case_id; contract = c.contract; passed = c.passed }

abbrev pub case_results_of : {Value : Type 0} → List (CaseRun Value) → List CaseResult
case_results_of [] = []
case_results_of (c ∷ cs) = case_result c ∷ case_results_of cs

abbrev pub unsupported_ids : List Unsupported → List String
unsupported_ids [] = []
unsupported_ids (u ∷ us) = u.case_id ∷ unsupported_ids us

abbrev pub is_error : Option Error → Bool
is_error none = false
is_error (some e) = true

-- `checkpoint or error is not None or position % checkpoint_every == 0`
abbrev pub is_checkpoint : ℕ → Option Error → Bool → ℕ → Bool
is_checkpoint checkpoint_every error checkpoint position =
    checkpoint || (is_error error || nat_eq (position % checkpoint_every) 0)

module _ {Value Observation : Type 0} (plan : Plan) where
  abbrev pub selection_document : Run Value Observation → SelectionDocument
  selection_document s = record {
    corpus_cases = plan.corpus_cases;
    requested_cases = length plan.selected;
    evaluated_cases = length s.case_results;
    unsupported_cases = length s.unsupported;
    one_per_contract = plan.one_per_contract;
    max_cases = plan.max_cases;
    shard_count = plan.shard_count;
    shard_index = plan.shard_index;
    complete_shard_set = nat_eq plan.shard_count 1;
    reused_identical_observations = s.reuse;
    dataset_sha256 = plan.dataset_sha256;
    dataset_file_sha256 = plan.dataset_file_sha256;
    contract_corpus_sha256 = plan.contract_corpus_sha256;
  }

  abbrev pub state_document : String → Option Error → Run Value Observation → StateDocument
  state_document status error s = record {
    status = status;
    position = s.position;
    total = length plan.selected;
    current_case_id = s.current_case_id;
    evaluated_cases = length s.case_results;
    unsupported_cases = length s.unsupported;
    error = error;
  }

  abbrev pub partial_document :
      String → Option Error → Run Value Observation → PartialDocument Value
  partial_document status error s = record {
    status = status;
    selection = selection_document s;
    position = s.position;
    total = length plan.selected;
    current_case_id = s.current_case_id;
    contracts = aggregate_contract_results (case_results_of s.case_results);
    cases = s.case_results;
    unsupported = s.unsupported;
    error = error;
  }

  unfoldable pub persist :
      String → Option Error → Bool → Run Value Observation → Run Value Observation
  persist status error checkpoint s = record s {
    states = s.states ++ state_document status error s ∷ [];
    partials =
        if is_checkpoint plan.checkpoint_every error checkpoint s.position
        then s.partials ++ partial_document status error s ∷ []
        else s.partials;
  }

-- `_append_jsonl(journal_path, …)`
abbrev pub log :
    {Value Observation : Type 0} → Event → Run Value Observation → Run Value Observation
log event s = record s { journal = s.journal ++ event ∷ [] }
