-- ===== src/Oracle/Run/Steps.antt =====
-- What one round of the loop can do, as a relation of the state before to what the round returns.
use os_bench.Common.{
  ℕ, ◌+◌, String, ◌≡◌, refl, ◌∙◌, Bool, true, false, ◌&&◌, none, some, Option-cases, Bool-cases,
  inl, inr, ◌⊎◌, Dict, lookup, if◌then◌else◌,
}
use os_bench.Common.Result.{Result-cases, ok, err, Error, key_error}
use os_bench.Contracts.Model.{Contract}
use os_bench.Oracle.Selection.{Case}
use os_bench.Oracle.Run.State.{Plan, Run, persist}
use os_bench.Oracle.Run.Cases.{
  Target, Reading, Stepped, continues, raises, start_case, skip_case, keep_reference,
  keep_candidate, case_run, complete_case, observe_candidate, compare_case, observe_case, run_case,
}

module _ {Value Observation : Type 0} (plan : Plan) (contracts : Dict Contract)
    (reading : Reading Value Observation) (reference candidate : Target Observation) where
  -- both transports take the case
  abbrev pub supported : Case → Bool
  supported c = reference.supports c && candidate.supports c

  pub data CaseStep (position : ℕ) (c : Case) (s : Run Value Observation)
      (r : Stepped Value Observation) : Type 0 where
    skipped :
        (reason : String)
        → supported c ≡ false
        → r
          ≡ continues (
              skip_case plan contracts reading reference candidate position c reason
                (start_case plan contracts reading reference candidate position c s))
        → CaseStep position c s r
    completed :
        (contract : Contract) (seen shown : Observation)
        → supported c ≡ true
        → lookup c.contract contracts ≡ some contract
        → reference.execute s.oracle_queries c ≡ ok seen
        → ((s.reuse ≡ true) × (shown ≡ seen))
          ⊎ ((s.reuse ≡ false) × (candidate.execute (s.oracle_queries + 1) c ≡ ok shown))
        → r
          ≡ continues (
              complete_case plan contracts reading reference candidate position c
                (case_run plan contracts reading reference candidate c contract seen shown)
                (keep_candidate plan contracts reading reference candidate position c shown (
                  keep_reference plan contracts reading reference candidate position c seen
                    (start_case plan contracts reading reference candidate position c s))))
        → CaseStep position c s r
    reference_raised :
        (e : Error)
        → supported c ≡ true
        → (lookup c.contract contracts ≡ none) ⊎ (reference.execute s.oracle_queries c ≡ err e)
        → r ≡ raises (start_case plan contracts reading reference candidate position c s) e
        → CaseStep position c s r
    candidate_raised :
        (seen : Observation) (e : Error)
        → supported c ≡ true
        → candidate.execute (s.oracle_queries + 1) c ≡ err e
        → r
          ≡ raises
              (keep_reference plan contracts reading reference candidate position c seen
                (start_case plan contracts reading reference candidate position c s))
              e
        → CaseStep position c s r

  abbrev seen_by_reference : ℕ → Case → Observation → Run Value Observation → Run Value Observation
  seen_by_reference position c seen s =
      keep_reference plan contracts reading reference candidate position c seen
        (start_case plan contracts reading reference candidate position c s)

  compare_case-ok :
      (position : ℕ) (c : Case) (contract : Contract) (seen shown : Observation)
      (s : Run Value Observation)
      → observe_candidate plan contracts reading reference candidate c seen s ≡ ok shown
      → compare_case plan contracts reading reference candidate position c contract seen s
        ≡ continues (
            complete_case plan contracts reading reference candidate position c
              (case_run plan contracts reading reference candidate c contract seen shown)
              (keep_candidate plan contracts reading reference candidate position c shown s))
  unfolding compare_case
  compare_case-ok position c contract seen shown s answered = rw (answered, compare_case) refl

  compare_case-err :
      (position : ℕ) (c : Case) (contract : Contract) (seen : Observation) (e : Error)
      (s : Run Value Observation)
      → observe_candidate plan contracts reading reference candidate c seen s ≡ err e
      → compare_case plan contracts reading reference candidate position c contract seen s
        ≡ raises s e
  unfolding compare_case
  compare_case-err position c contract seen e s failed = rw (failed, compare_case) refl

  -- what the candidate gives once the reference's observation is kept
  observe_candidate-seen_by_reference :
      (position : ℕ) (c : Case) (seen : Observation) (s : Run Value Observation)
      → observe_candidate plan contracts reading reference candidate c seen
          (seen_by_reference position c seen s)
        ≡ (if s.reuse then ok seen else candidate.execute (s.oracle_queries + 1) c)
  unfolding observe_candidate keep_reference start_case persist
  observe_candidate-seen_by_reference position c seen s = refl

  compare_case-CaseStep :
      (position : ℕ) (c : Case) (contract : Contract) (seen : Observation)
      (s : Run Value Observation)
      → supported c ≡ true
      → lookup c.contract contracts ≡ some contract
      → reference.execute s.oracle_queries c ≡ ok seen
      → CaseStep position c s (
          compare_case plan contracts reading reference candidate position c contract seen
            (seen_by_reference position c seen s))
  compare_case-CaseStep position c contract seen s both known observed = elim (Bool-cases s.reuse) [
    | inl reused ↦ completed contract seen seen both known observed (inl (reused, refl)) (
        compare_case-ok position c contract seen seen (seen_by_reference position c seen s)
          (observe_candidate-seen_by_reference position c seen s ∙ rw reused refl))
    | inr fresh ↦ elim (Result-cases (candidate.execute (s.oracle_queries + 1) c)) [
      | inr (e, failed) ↦ candidate_raised seen e both failed (
          compare_case-err position c contract seen e (seen_by_reference position c seen s)
            (observe_candidate-seen_by_reference position c seen s ∙ rw (fresh, failed) refl))
      | inl (shown, answered) ↦
          completed contract seen shown both known observed (inr (fresh, answered)) (
            compare_case-ok position c contract seen shown (seen_by_reference position c seen s)
              (observe_candidate-seen_by_reference position c seen s ∙ rw (fresh, answered) refl))
    ]
  ]

  observe_case-CaseStep :
      (position : ℕ) (c : Case) (s : Run Value Observation)
      → supported c ≡ true
      → CaseStep position c s (
          observe_case plan contracts reading reference candidate position c
            (start_case plan contracts reading reference candidate position c s))
  unfolding observe_case start_case persist
  observe_case-CaseStep position c s both = elim (Option-cases (lookup c.contract contracts)) [
    | inl absent ↦
        reference_raised (key_error c.contract) both (inl absent) (rw (absent, observe_case) refl)
    | inr (contract, known) ↦ elim (Result-cases (reference.execute s.oracle_queries c)) [
      | inr (e, failed) ↦
          reference_raised e both (inr failed) (rw (known, failed, observe_case) refl)
      | inl (seen, observed) ↦
          rw (known, observed, observe_case)
            (compare_case-CaseStep position c contract seen s both known observed)
    ]
  ]

  pub run_case-CaseStep :
      (position : ℕ) (c : Case) (s : Run Value Observation)
      → CaseStep position c s (run_case plan contracts reading reference candidate position c s)
  unfolding run_case
  run_case-CaseStep position c s = elim (Bool-cases (reference.supports c)) [
    | inr refused ↦
        skipped "reference transport unsupported" (rw refused refl) (rw (refused, run_case) refl)
    | inl first ↦ elim (Bool-cases (candidate.supports c)) [
      | inr refused ↦
          skipped "candidate transport unsupported" (rw (first, refused) refl)
            (rw (first, refused, run_case) refl)
      | inl second ↦
          rw (first, second, run_case)
            (observe_case-CaseStep position c s (rw (first, second) refl))
    ]
  ]
