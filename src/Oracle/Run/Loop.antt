-- ===== src/Oracle/Run/Loop.antt =====
-- Where the loop of `evaluate` over the cases ends.
use mathlib.Core.List.{append-nil, append_assoc}
use os_bench.Common.{
  ℕ, suc, ◌+◌, ◌*◌, String, ◌≡◌, refl, Bool, true, false, List, [], ◌∷◌, ◌++◌, length,
  length-append, Dict, lookup, none, some, inl, inr, arith, if◌then◌else◌,
}
use os_bench.Common.Result.{err, Error}
use os_bench.Contracts.Model.{Contract}
use os_bench.Oracle.Selection.{Case}
use os_bench.Oracle.Run.State.{Plan, Run, persist}
use os_bench.Oracle.Run.Cases.{
  Target, Reading, Stepped, continues, raises, start_case, skip_case, keep_reference,
  keep_candidate, case_run, complete_case, run_case, run_cases,
}
use os_bench.Oracle.Run.Steps.{
  skipped, completed, reference_raised, candidate_raised, run_case-CaseStep,
}
use os_bench.Oracle.Run.Accounts.{
  is_supported, Accounted, start_case-Accounted, skip_case-Accounted, keep_reference-Accounted,
  keep_candidate-Accounted, complete_case-Accounted,
}

-- the queries of one more evaluated case
counted :
    {A : Type 0} (reuse : Bool) (asked : ℕ) (rs : List A) (r : A)
    → asked ≡ (if reuse then 1 else 2) * length rs
    → (if reuse then asked + 1 else asked + 1 + 1)
      ≡ (if reuse then 1 else 2) * length (rs ++ r ∷ [])
counted true asked rs r h = ground (arith, length-append rs (r ∷ []))
counted false asked rs r h = ground (arith, length-append rs (r ∷ []))

length-snoc : {A : Type 0} (xs : List A) (x : A) → length (xs ++ x ∷ []) ≡ length xs + 1
length-snoc xs x = length-append xs (x ∷ [])

module _ {Value Observation : Type 0} (plan : Plan) (contracts : Dict Contract)
    (reading : Reading Value Observation) (reference candidate : Target Observation) where
  -- Between two rounds: the cases `done` are accounted for, and each one that was evaluated was
  -- asked of the reference, and of the candidate unless the reference's observation is used again.
  pub record Settled (done : List Case) (s : Run Value Observation) : Type 0 where
    pub accounted : Accounted plan contracts reading reference candidate done s
    pub position : s.position ≡ length done
    pub queries : s.oracle_queries ≡ (if s.reuse then 1 else 2) * length s.case_results

  -- what can raise in a case
  pub data Cause (c : Case) (e : Error) : Type 0 where
    no_contract : lookup c.contract contracts ≡ none → Cause c e
    reference_failed : (n : ℕ) → reference.execute n c ≡ err e → Cause c e
    candidate_failed : (n : ℕ) → candidate.execute n c ≡ err e → Cause c e

  -- Where an exception leaves the loop: in the case after those of `done`, which stays current
  -- and is in no account.
  pub record Stopped (done : List Case) (c : Case) (e : Error) (s : Run Value Observation)
      : Type 0 where
    pub accounted : Accounted plan contracts reading reference candidate done s
    pub position : s.position ≡ suc (length done)
    pub current : s.current_case_id ≡ some c.case_id
    pub taken : is_supported plan contracts reading reference candidate c ≡ true
    pub cause : Cause c e

  skip-Settled :
      (done : List Case) (s : Run Value Observation) (c : Case) (reason : String)
      → is_supported plan contracts reading reference candidate c ≡ false
      → Settled done s
      → Settled (done ++ c ∷ []) (
          skip_case plan contracts reading reference candidate
            (suc (length done))
            c
            reason
            (start_case plan contracts reading reference candidate (suc (length done)) c s))
  unfolding skip_case start_case persist
  skip-Settled done s c reason refused h = record {
    accounted =
        skip_case-Accounted plan contracts reading reference candidate done
          (start_case plan contracts reading reference candidate (suc (length done)) c s)
          (suc (length done)) c reason refused
          (start_case-Accounted plan contracts reading reference candidate done s
            (suc (length done)) c h.accounted);
    position = ground (arith, length-snoc done c);
    queries = h.queries;
  }

  -- the state of a round up to the candidate's observation
  abbrev observed :
      ℕ → Case → Observation → Observation → Run Value Observation → Run Value Observation
  observed position c seen shown s =
      keep_candidate plan contracts reading reference candidate position c shown (
        keep_reference plan contracts reading reference candidate position c seen
          (start_case plan contracts reading reference candidate position c s))

  complete-Settled :
      (done : List Case) (s : Run Value Observation) (c : Case) (contract : Contract)
      (seen shown : Observation)
      → is_supported plan contracts reading reference candidate c ≡ true
      → lookup c.contract contracts ≡ some contract
      → Settled done s
      → Settled (done ++ c ∷ []) (
          complete_case plan contracts reading reference candidate
            (suc (length done))
            c
            (case_run plan contracts reading reference candidate c contract seen shown)
            (observed (suc (length done)) c seen shown s))
  unfolding complete_case case_run keep_candidate keep_reference start_case persist
  complete-Settled done s c contract seen shown taken known h =
      let position = suc (length done) in
      let started = start_case plan contracts reading reference candidate position c s in
      let kept =
        keep_reference plan contracts reading reference candidate position c seen started in
      let result = case_run plan contracts reading reference candidate c contract seen shown in
      record {
        accounted =
            complete_case-Accounted plan contracts reading reference candidate done
              (observed position c seen shown s) position c contract result refl refl taken known
              (keep_candidate-Accounted plan contracts reading reference candidate done kept
                position c shown
                (keep_reference-Accounted plan contracts reading reference candidate done started
                  position c seen
                  (start_case-Accounted plan contracts reading reference candidate done s position c
                    h.accounted)));
        position = ground (arith, length-snoc done c);
        queries = counted s.reuse s.oracle_queries s.case_results result h.queries;
      }

  -- what a round comes to
  data Round (done : List Case) (c : Case) (r : Stepped Value Observation) : Type 0 where
    went_on :
        (t : Run Value Observation) → r ≡ continues t → Settled (done ++ c ∷ []) t → Round done c r
    broke_off :
        (t : Run Value Observation) (e : Error)
        → r ≡ raises t e
        → Stopped done c e t
        → Round done c r

  run_case-Round :
      (done : List Case) (s : Run Value Observation) (c : Case)
      → Settled done s
      → Round done c (run_case plan contracts reading reference candidate (suc (length done)) c s)
  unfolding keep_reference start_case persist
  run_case-Round done s c h =
      let position = suc (length done) in
      let started = start_case plan contracts reading reference candidate position c s in
      let begun =
        start_case-Accounted plan contracts reading reference candidate done s position c
          h.accounted in
      elim (run_case-CaseStep plan contracts reading reference candidate position c s) [
        | skipped reason refused r ↦ went_on _ r (skip-Settled done s c reason refused h)
        | completed contract seen shown taken known asked answered r ↦
            went_on _ r (complete-Settled done s c contract seen shown taken known h)
        | reference_raised e taken why r ↦ broke_off _ e r (record {
          accounted = begun;
          position = refl;
          current = refl;
          taken = taken;
          cause = elim why [
            | inl absent ↦ no_contract absent
            | inr refused ↦ reference_failed s.oracle_queries refused
          ];
        })
        | candidate_raised seen e taken refused r ↦ broke_off _ e r (record {
          accounted =
              keep_reference-Accounted plan contracts reading reference candidate done started
                position c seen begun;
          position = refl;
          current = refl;
          taken = taken;
          cause = candidate_failed (s.oracle_queries + 1) refused;
        })
      ]

  -- Where the loop over `selected` ends.
  pub data Loop (selected : List Case) (r : Stepped Value Observation) : Type 0 where
    all_taken : (t : Run Value Observation) → r ≡ continues t → Settled selected t → Loop selected r
    broken_off :
        (done rest : List Case) (c : Case) (t : Run Value Observation) (e : Error)
        → selected ≡ done ++ c ∷ rest
        → r ≡ raises t e
        → Stopped done c e t
        → Loop selected r

  pub run_cases-Loop :
      (cs done : List Case) (n : ℕ) (s : Run Value Observation)
      → n ≡ length done
      → Settled done s
      → Loop (done ++ cs) (run_cases plan contracts reading reference candidate n cs s)
  unfolding run_cases
  run_cases-Loop [] done n s e h = rw (append-nil done) (all_taken s refl h)
  run_cases-Loop (c ∷ cs) done n s e h =
      let round : Round done c (run_case plan contracts reading reference candidate (suc n) c s) =
        rw e (run_case-Round done s c h) in
      elim round [
        | went_on t r settled ↦
            rw (r, run_cases)
              (rw (← append_assoc done (c ∷ []) cs) (
                run_cases-Loop cs (done ++ c ∷ []) (suc n) t (ground (arith, length-snoc done c))
                  settled))
        | broke_off t error r stopped ↦
            broken_off done cs c t error refl (rw (r, run_cases) refl) stopped
      ]
