-- ===== src/Oracle/Run/Cases.antt =====
-- The loop of `evaluate` over the selected cases.
use os_bench.Common.{
  ℕ, suc, ◌+◌, String, Bool, false, not, List, [], ◌∷◌, ◌++◌, Option, none, some, Dict, lookup,
  insert, ltb, if◌then◌else◌,
}
use os_bench.Common.Result.{Result, ok, err, Error, key_error}
use os_bench.Contracts.Model.{Contract}
use os_bench.Oracle.Aggregate.{Rate}
use os_bench.Oracle.Comparison.{Values, compare_observations}
use os_bench.Oracle.Selection.{Case}
use os_bench.Oracle.Run.State.{
  Plan, Run, CaseRun, case_started, case_unsupported, reference_observed, candidate_observed,
  case_completed, persist, log,
}

-- A target (src/osbench/targets.py) from outside. What `execute` gives may depend on how many
-- queries the run has made before.
pub record Target (Observation : Type 0) : Type 0 where
  pub name : String
  pub is_local : Bool
  pub supports : Case → Bool
  pub execute : ℕ → Case → Result Observation
  -- what its `close` comes to when the run is over; a target without that method returns
  pub close : Result (Unit {0})

-- What the comparison reads, for each Contract, and the durations, in nanoseconds.
pub record Reading (Value Observation : Type 0) : Type 0 where
  pub values : Contract → Values Value Observation
  pub status : Observation → Option String
  pub duration : Observation → Option ℕ

pub data Stepped (Value Observation : Type 0) : Type 0 where
  continues : Run Value Observation → Stepped Value Observation
  raises : Run Value Observation → Error → Stepped Value Observation

-- `candidate_duration / reference_duration`, where both are numbers and the divisor is positive
abbrev pub performance_ratio : Option ℕ → Option ℕ → Option Rate
performance_ratio (some reference) (some candidate) =
    if ltb 0 reference
    then some (record { numerator = candidate; denominator = reference })
    else none
performance_ratio (some reference) none = none
performance_ratio none candidate = none

module _ {Value Observation : Type 0} (plan : Plan) (contracts : Dict Contract)
    (reading : Reading Value Observation) (reference candidate : Target Observation) where
  abbrev running : Run Value Observation → Run Value Observation
  running s = persist plan "running" none false s

  -- `current_case_id = …`, then the entry `case_started`
  unfoldable pub start_case : ℕ → Case → Run Value Observation → Run Value Observation
  start_case position c s = running (
      log (case_started position c.case_id c.contract c.probe)
        (record s { position = position; current_case_id = some c.case_id }))

  unfoldable pub skip_case : ℕ → Case → String → Run Value Observation → Run Value Observation
  skip_case position c reason s = running (
      log (case_unsupported position c.case_id reason) (record s {
        unsupported = s.unsupported ++ record { case_id = c.case_id; reason = reason } ∷ [];
      }))

  -- the reference's observation is there
  unfoldable pub keep_reference :
      ℕ → Case → Observation → Run Value Observation → Run Value Observation
  keep_reference position c observation s = running (
      log (reference_observed position c.case_id (reading.status observation)) (record s {
        oracle_queries = s.oracle_queries + 1;
        raw_reference = insert c.case_id observation s.raw_reference;
        reference_progress =
            s.reference_progress
            ++ record {
              case_id = c.case_id;
              contract = c.contract;
              position = position;
              observation = observation;
            }
              ∷ [];
      }))

  -- the candidate's observation is there; it counts as a query unless it is the reference's
  unfoldable pub keep_candidate :
      ℕ → Case → Observation → Run Value Observation → Run Value Observation
  keep_candidate position c observation s =
      log (candidate_observed position c.case_id (reading.status observation) s.reuse) (record s {
        oracle_queries = if s.reuse then s.oracle_queries else s.oracle_queries + 1;
        raw_candidate = insert c.case_id observation s.raw_candidate;
        candidate_progress =
            s.candidate_progress
            ++ record {
              case_id = c.case_id;
              contract = c.contract;
              position = position;
              observation = observation;
            }
              ∷ [];
      })

  -- the entry of `case_results`
  unfoldable pub case_run : Case → Contract → Observation → Observation → CaseRun Value
  case_run c contract seen shown =
      let outcome =
        compare_observations (reading.values contract) seen shown (some contract.equivalence) in
      record {
        case_id = c.case_id;
        contract = c.contract;
        domain = c.domain;
        level = c.level;
        family = c.family;
        passed = outcome.0;
        difference = outcome.1;
        reference_status = reading.status seen;
        candidate_status = reading.status shown;
        performance_ratio = performance_ratio (reading.duration seen) (reading.duration shown);
      }

  unfoldable pub complete_case :
      ℕ → Case → CaseRun Value → Run Value Observation → Run Value Observation
  complete_case position c result s = running (
      log (case_completed position c.case_id result.passed)
        (record s { case_results = s.case_results ++ result ∷ [] }))

  -- `copy.deepcopy(reference_observation) if reuse_identical_observations else candidate.execute(case)`
  unfoldable pub observe_candidate : Case → Observation → Run Value Observation → Result Observation
  observe_candidate c seen s = if s.reuse then ok seen else candidate.execute s.oracle_queries c

  unfoldable pub compare_case :
      ℕ → Case → Contract → Observation → Run Value Observation → Stepped Value Observation
  unfolding keep_candidate complete_case case_run
  compare_case position c contract seen s = elim (observe_candidate c seen s) [
    | err e ↦ raises s e
    | ok shown ↦ continues (
        complete_case position c (case_run c contract seen shown)
          (keep_candidate position c shown s))
  ]

  unfoldable pub observe_case : ℕ → Case → Run Value Observation → Stepped Value Observation
  unfolding compare_case keep_reference
  observe_case position c s = elim (lookup c.contract contracts) [
    | none ↦ raises s (key_error c.contract)
    | some contract ↦ elim (reference.execute s.oracle_queries c) [
      | err e ↦ raises s e
      | ok seen ↦ compare_case position c contract seen (keep_reference position c seen s)
    ]
  ]

  -- one round of the loop
  unfoldable pub run_case : ℕ → Case → Run Value Observation → Stepped Value Observation
  unfolding start_case skip_case observe_case
  run_case position c s =
      let started = start_case position c s in
      if not (reference.supports c)
      then continues (skip_case position c "reference transport unsupported" started)
      else if not (candidate.supports c)
      then continues (skip_case position c "candidate transport unsupported" started)
      else observe_case position c started

  -- `for position, case in enumerate(selected, start=1)`; `done` cases came before
  unfoldable pub run_cases : ℕ → List Case → Run Value Observation → Stepped Value Observation
  unfolding run_case
  run_cases done [] s = continues s
  run_cases done (c ∷ cs) s = elim (run_case (suc done) c s) [
    | continues t ↦ run_cases (suc done) cs t
    | raises t e ↦ raises t e
  ]
