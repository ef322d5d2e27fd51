-- ===== src/Oracle/Run/Closing.antt =====
-- How `evaluate` of src/osbench/oracle.py opens and closes its two targets, and what leaves it.
use os_bench.Common.{ℕ, String, ◌≡◌, refl, Bool, true, List, [], ◌∷◌, ◌==◌, Dict, inl, inr, arith}
use os_bench.Common.Result.{Result, Result-cases, ok, err, Error}
use os_bench.Contracts.Model.{Contract}
use os_bench.Oracle.Selection.{Case}
use os_bench.Oracle.Run.State.{Plan, Run, run_failed, persist}
use os_bench.Oracle.Run.Cases.{Target, Reading}
use os_bench.Oracle.Run.Evaluate.{
  Role, the_reference, the_candidate, Document, Evaluated, close_targets, fail_run, broken_close,
  run_selected,
}
use os_bench.Oracle.Run.Journal.{has_ended, has_ended-log}
use os_bench.Oracle.Run.Loop.{Cause}
use os_bench.Oracle.Run.Ends.{finished, failed, run_targets_ends}
use os_bench.Oracle.Run.Correct.{run_targets-completions}

close_none : close_targets [] ≡ record { closed = []; outcome = ok tt }
unfolding close_targets
close_none = refl

close_one :
    (first : Result (Unit {0}))
    → first ≡ ok tt
    → close_targets ((the_reference, first) ∷ [])
      ≡ record { closed = the_reference ∷ []; outcome = ok tt }
unfolding close_targets
close_one first h = rw (h) refl

pub close_both :
    (first second : Result (Unit {0}))
    → first ≡ ok tt
    → second ≡ ok tt
    → close_targets ((the_reference, first) ∷ (the_candidate, second) ∷ [])
      ≡ record { closed = the_reference ∷ the_candidate ∷ []; outcome = ok tt }
unfolding close_targets
close_both first second h k = rw (h, k) refl

first_stuck :
    (first : Result (Unit {0})) (others : List (Role × Result (Unit {0}))) (error : Error)
    → first ≡ err error
    → close_targets ((the_reference, first) ∷ others)
      ≡ record { closed = the_reference ∷ []; outcome = err error }
unfolding close_targets
first_stuck first others error h = rw (h) refl

second_stuck :
    (first second : Result (Unit {0})) (error : Error)
    → first ≡ ok tt
    → second ≡ err error
    → close_targets ((the_reference, first) ∷ (the_candidate, second) ∷ [])
      ≡ record { closed = the_reference ∷ the_candidate ∷ []; outcome = err error }
unfolding close_targets
second_stuck first second error h k = rw (h, k) refl

module _ {Value Observation : Type 0} (below : ℕ → ℕ → Bool) (plan : Plan)
    (contracts : Dict Contract) (reading : Reading Value Observation)
    (open_target : String → Result (Target Observation)) (reference_spec target_spec : String) where
  -- Both targets are opened, and `close` of both returns.
  pub record Served (reference candidate : Target Observation) : Type 0 where
    pub reference_opens : open_target reference_spec ≡ ok reference
    pub candidate_opens : open_target target_spec ≡ ok candidate
    pub reference_closes : reference.close ≡ ok tt
    pub candidate_closes : candidate.close ≡ ok tt

  -- What leaves `evaluate`, and the targets that were asked to close.
  pub data Closes (ended : Evaluated Value Observation) : Type 0 where
    gives :
        (reference candidate : Target Observation) (d : Document Value)
        → Served reference candidate
        → ended.outcome ≡ ok d
        → ended.closed ≡ the_reference ∷ the_candidate ∷ []
        → has_ended ended.run.journal ≡ true
        → Closes ended
    breaks :
        (reference candidate : Target Observation) (c : Case) (error : Error)
        → Served reference candidate
        → Cause plan contracts reading reference candidate c error
        → ended.outcome ≡ err error
        → ended.closed ≡ the_reference ∷ the_candidate ∷ []
        → has_ended ended.run.journal ≡ true
        → Closes ended
    no_reference :
        (error : Error)
        → open_target reference_spec ≡ err error
        → ended.outcome ≡ err error
        → ended.closed ≡ []
        → has_ended ended.run.journal ≡ true
        → Closes ended
    no_candidate :
        (reference : Target Observation) (error : Error)
        → open_target reference_spec ≡ ok reference
        → open_target target_spec ≡ err error
        → reference.close ≡ ok tt
        → ended.outcome ≡ err error
        → ended.closed ≡ the_reference ∷ []
        → has_ended ended.run.journal ≡ true
        → Closes ended
    reference_stuck :
        (reference : Target Observation) (error : Error)
        → open_target reference_spec ≡ ok reference
        → reference.close ≡ err error
        → ended.outcome ≡ err error
        → ended.closed ≡ the_reference ∷ []
        → Closes ended
    candidate_stuck :
        (reference candidate : Target Observation) (error : Error)
        → open_target reference_spec ≡ ok reference
        → open_target target_spec ≡ ok candidate
        → reference.close ≡ ok tt
        → candidate.close ≡ err error
        → ended.outcome ≡ err error
        → ended.closed ≡ the_reference ∷ the_candidate ∷ []
        → Closes ended

  fail_run-has_ended :
      (s : Run Value Observation) (e : Error)
      → has_ended (fail_run below plan contracts reading s e).run.journal ≡ true
  unfolding fail_run persist
  fail_run-has_ended s e =
      ground (arith, has_ended-log s.journal (run_failed s.position s.current_case_id e))

  broken_close-outcome :
      (same_spec : Bool) (reference candidate : Target Observation) (error : Error)
      → (broken_close below plan contracts reading same_spec reference candidate error).outcome
        ≡ err error
  unfolding broken_close
  broken_close-outcome same_spec reference candidate error = ground (arith)

  -- What leaves `evaluate` is the document only if both targets were opened and closed. An
  -- exception that leaves it is that of the opening that failed, that of the case that failed, or
  -- that of a closing, which takes the place of any other. Each target that was opened is asked to
  -- close, the reference first, except that a candidate is not where the closing of the reference
  -- raises. Where no closing raises, the journal says that the run ended.
  pub run_selected-Closes :
      Closes (run_selected below plan contracts reading open_target reference_spec target_spec)
  unfolding run_selected fail_run
  run_selected-Closes = elim (Result-cases (open_target reference_spec)) [
    | inr (e, refused) ↦
        rw (refused, close_none, run_selected)
          (no_reference e refused refl refl (fail_run-has_ended _ e))
    | inl (reference, found) ↦ elim (Result-cases (reference.close)) [
      | inr (x, stuck) ↦ elim (Result-cases (open_target target_spec)) [
        | inr (e, refused) ↦
            rw (found, refused, first_stuck reference.close [] x stuck, run_selected)
              (reference_stuck reference x found stuck refl refl)
        | inl (candidate, here) ↦
            rw
              (
                found,
                here,
                first_stuck reference.close ((the_candidate, candidate.close) ∷ []) x stuck,
                run_selected,
              )
              (reference_stuck reference x found stuck
                (broken_close-outcome _ reference candidate x) refl)
      ]
      | inl (done, shut) ↦ elim (Result-cases (open_target target_spec)) [
        | inr (e, refused) ↦
            rw (found, refused, close_one reference.close shut, run_selected)
              (no_candidate reference e found refused shut refl refl (fail_run-has_ended _ e))
        | inl (candidate, here) ↦ elim (Result-cases (candidate.close)) [
          | inr (x, stuck) ↦
              rw
                (
                  found,
                  here,
                  second_stuck reference.close candidate.close x shut stuck,
                  run_selected,
                )
                (candidate_stuck reference candidate x found here shut stuck
                  (broken_close-outcome _ reference candidate x) refl)
          | inl (both, all_shut) ↦
              let same_spec = target_spec == reference_spec in
              let served : Served reference candidate = record {
                reference_opens = found;
                candidate_opens = here;
                reference_closes = shut;
                candidate_closes = all_shut;
              } in
              let ended =
                (run_targets-completions below plan contracts reading reference candidate
                  target_spec same_spec).2 in
              elim (run_targets_ends below plan contracts reading reference candidate target_spec
                same_spec) [
                  | finished d h ↦
                      rw
                        (
                          found,
                          here,
                          close_both reference.close candidate.close shut all_shut,
                          run_selected,
                        )
                        (gives reference candidate d served h.outcome refl ended)
                  | failed before rest c e split h ↦
                      rw
                        (
                          found,
                          here,
                          close_both reference.close candidate.close shut all_shut,
                          run_selected,
                        )
                        (breaks reference candidate c e served h.cause h.outcome refl ended)
                ]
        ]
      ]
    ]
  ]
