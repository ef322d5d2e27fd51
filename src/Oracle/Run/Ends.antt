-- ===== src/Oracle/Run/Ends.antt =====
-- How a run of `evaluate` ends once both targets are open, where closing them returns.
use os_bench.Common.{
  ℕ, suc, ◌*◌, String, ◌≡◌, refl, ap, ◌∙◌, Bool, true, false, ◌&&◌, List, [], ◌∷◌, ◌++◌, length,
  Dict, none, some, arith, if◌then◌else◌,
}
use os_bench.Common.Result.{ok, err, Error}
use os_bench.Contracts.Model.{Contract}
use os_bench.Oracle.Selection.{Case}
use os_bench.Oracle.Run.State.{
  Plan, Run, Event, PartialDocument, partial_document, run_failed, run_completed, persist,
  case_results_of, selection_document,
}
use os_bench.Oracle.Run.Cases.{Target, Reading, run_cases}
use os_bench.Oracle.Run.Evaluate.{
  Document, Ended, empty_run, started_run, fail_run, finish_run, result_document, run_targets,
}
use os_bench.Oracle.Run.Journal.{completions, refusals, has_ended, verdicts}
use os_bench.Oracle.Run.Accounts.{selected_ids, is_supported, Balanced}
use os_bench.Oracle.Run.Loop.{Settled, Stopped, Cause, Loop, all_taken, broken_off, run_cases-Loop}
use os_bench.Scoring.Gate.{score_results_known}

module _ {Value Observation : Type 0} (below : ℕ → ℕ → Bool) (plan : Plan)
    (contracts : Dict Contract) (reading : Reading Value Observation)
    (reference candidate : Target Observation) where
  -- the state in which the loop starts
  unfoldable pub opened : Bool → Run Value Observation
  opened reuse =
      persist plan "running" none false
        (record (started_run {Observation = Observation} below plan contracts reading) {
          reuse = reuse;
        })

  opened-Settled :
      (reuse : Bool) → Settled plan contracts reading reference candidate [] (opened reuse)
  unfolding opened started_run empty_run persist completions refusals has_ended verdicts
      selected_ids
  opened-Settled reuse = record {
    accounted = record {
      evaluated = refl;
      refused = refl;
      known = refl;
      told = refl;
      told_refused = refl;
      unfinished = refl;
    };
    position = refl;
    queries = ground arith;
  }

  -- a run that gives the document `d`
  pub record Finished (d : Document Value) (e : Ended Value Observation) : Type 0 where
    pub outcome : e.outcome ≡ ok d
    pub results : e.run.case_results ≡ d.cases
    pub refused : e.run.unsupported ≡ d.unsupported
    pub before : List Event
    pub journal :
        e.run.journal
        ≡ before
          ++ run_completed (length plan.selected) (length d.cases) (length d.unsupported) ∷ []
    pub balanced :
        Balanced plan contracts reading reference candidate plan.selected d.cases d.unsupported
          before
    pub queries : e.run.oracle_queries ≡ (if e.run.reuse then 1 else 2) * length d.cases
    pub earlier : List (PartialDocument Value)
    pub checkpoint : e.run.partials ≡ earlier ++ partial_document plan "completed" none e.run ∷ []
    pub selection : d.selection ≡ selection_document plan e.run

  -- a run that the exception `error` ends, raised for the case `c`, after those of `done`
  pub record Failed (done : List Case) (c : Case) (error : Error) (e : Ended Value Observation)
      : Type 0 where
    pub outcome : e.outcome ≡ err error
    pub taken : is_supported plan contracts reading reference candidate c ≡ true
    pub cause : Cause plan contracts reading reference candidate c error
    pub before : List Event
    pub journal :
        e.run.journal ≡ before ++ run_failed (suc (length done)) (some c.case_id) error ∷ []
    pub balanced :
        Balanced plan contracts reading reference candidate done e.run.case_results
          e.run.unsupported before
    pub earlier : List (PartialDocument Value)
    pub checkpoint :
        e.run.partials ≡ earlier ++ partial_document plan "failed" (some error) e.run ∷ []

  finish-Finished :
      (target_spec : String) (t : Run Value Observation)
      → Settled plan contracts reading reference candidate plan.selected t
      → (d : Document Value) × Finished d
          (finish_run below plan contracts reading target_spec reference.name candidate.name t)
  unfolding finish_run result_document persist
  finish-Finished target_spec t h =
      let (scores, scored) =
        score_results_known below (case_results_of t.case_results) contracts h.accounted.known in
      let d =
        result_document below plan contracts reading target_spec reference.name candidate.name
          scores (record t { current_case_id = none }) in
      (
        d,
        rw (scored, finish_run)
            (record {
              outcome = refl;
              results = refl;
              refused = refl;
              before = t.journal;
              journal =
                  ap
                    (λ n.
                      t.journal
                      ++ run_completed n (length t.case_results) (length t.unsupported) ∷ [])
                    h.position;
              balanced = h.accounted;
              queries = h.queries;
              earlier = t.partials;
              checkpoint = refl;
              selection = refl;
            }),
      )

  fail-Failed :
      (done : List Case) (c : Case) (t : Run Value Observation) (error : Error)
      → Stopped plan contracts reading reference candidate done c error t
      → Failed done c error (fail_run below plan contracts reading t error)
  unfolding fail_run persist
  fail-Failed done c t error h = record {
    outcome = refl;
    taken = h.taken;
    cause = h.cause;
    before = t.journal;
    journal =
        ap (λ n. t.journal ++ run_failed n t.current_case_id error ∷ []) h.position
        ∙ ap (λ k. t.journal ++ run_failed (suc (length done)) k error ∷ []) h.current;
    balanced = h.accounted;
    earlier = t.partials;
    checkpoint = refl;
  }

  -- how a run ends
  pub data RunEnd (e : Ended Value Observation) : Type 0 where
    finished : (d : Document Value) → Finished d e → RunEnd e
    failed :
        (done rest : List Case) (c : Case) (error : Error)
        → plan.selected ≡ done ++ c ∷ rest
        → Failed done c error e
        → RunEnd e

  pub run_targets_ends :
      (target_spec : String) (same_spec : Bool)
      → RunEnd (run_targets below plan contracts reading target_spec same_spec reference candidate)
  unfolding run_targets opened
  run_targets_ends target_spec same_spec =
      let reuse = same_spec && (reference.is_local && candidate.is_local) in
      let loop : Loop plan contracts reading reference candidate plan.selected
          (run_cases plan contracts reading reference candidate 0 plan.selected (opened reuse)) =
        run_cases-Loop plan contracts reading reference candidate plan.selected [] 0 (opened reuse)
          refl (opened-Settled reuse) in
      elim loop [
        | all_taken t r settled ↦
            let (d, h) = finish-Finished target_spec t settled in finished d (rw (r, run_targets) h)
        | broken_off done rest c t e split r stopped ↦
            failed done rest c e split (rw (r, run_targets) (fail-Failed done c t e stopped))
      ]
