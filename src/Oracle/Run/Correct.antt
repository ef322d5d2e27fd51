-- ===== src/Oracle/Run/Correct.antt =====
-- What the run of `evaluate` promises: its journal, its result document, when it returns.
use os_bench.Common.{
  ℕ, suc, ◌+◌, ◌*◌, String, ◌≡◌, refl, sym, ap, ◌∙◌, Bool, true, false, not, ◌||◌, List, [], ◌∷◌,
  ◌++◌, keep, all, elem, nodup, length, Dict, keys, lookup-none_iff, Bool-cases, inl, inr, and-true,
  arith, if◌then◌else◌,
}
use os_bench.Common.Result.{ok, Error}
use os_bench.Contracts.Model.{Contract}
use os_bench.Oracle.Selection.{Case}
use os_bench.Oracle.Run.State.{Plan, CaseRun, case_results_of, unsupported_ids, Event}
use os_bench.Oracle.Run.Cases.{Target, Reading}
use os_bench.Oracle.Run.Evaluate.{Document, Ended, as_results, run_targets}
use os_bench.Oracle.Run.Journal.{
  completion, refusal, is_end, completions, refusals, has_ended, verdicts, completions_quiet,
  refusals_quiet, has_ended-log,
}
use os_bench.Oracle.Run.Accounts.{selected_ids, is_supported, Balanced}
use os_bench.Oracle.Run.Loop.{no_contract, reference_failed, candidate_failed, Cause}
use os_bench.Oracle.Run.Ends.{finished, failed, run_targets_ends}
use os_bench.Results.{case_ids, validate_results}
use os_bench.Results.Valid.{validate_results-IsValid}

-- the two parts of a list
length-ids_split :
    (test : Case → Bool) (cs : List Case)
    → length cs
      ≡ length (selected_ids (keep test cs)) + length (selected_ids (keep (λ c. not (test c)) cs))
unfolding selected_ids
length-ids_split test [] = refl
length-ids_split test (c ∷ cs) = elim (Bool-cases (test c)) [
  | inl e ↦ rw e (ground (arith, length-ids_split test cs))
  | inr e ↦ rw e (ground (arith, length-ids_split test cs))
]

elem-ids_keep :
    (test : Case → Bool) (k : String) (cs : List Case)
    → elem k (selected_ids cs) ≡ false
    → elem k (selected_ids (keep test cs)) ≡ false
unfolding selected_ids
elem-ids_keep test k [] h = refl
elem-ids_keep test k (c ∷ cs) h = elim (Bool-cases (test c)) [
  | inl e ↦ rw e (ground (arith, elem-ids_keep test k cs))
  | inr e ↦ rw e (ground (arith, elem-ids_keep test k cs))
]

nodup-ids_keep :
    (test : Case → Bool) (cs : List Case)
    → nodup (selected_ids cs) ≡ true
    → nodup (selected_ids (keep test cs)) ≡ true
unfolding selected_ids
nodup-ids_keep test [] h = refl
nodup-ids_keep test (c ∷ cs) h = elim (Bool-cases (test c)) [
  | inl e ↦ rw e (ground (arith, nodup-ids_keep test cs, elem-ids_keep test c.case_id cs))
  | inr e ↦ rw e (ground (arith, nodup-ids_keep test cs))
]

length-case_ids :
    {Value : Type 0} (rs : List (CaseRun Value))
    → length (case_ids (case_results_of rs)) ≡ length (case_results_of rs)
length-case_ids [] = refl
length-case_ids (r ∷ rs) = ap suc (length-case_ids rs)

all-split :
    (test : Case → Bool) (done rest : List Case) (c : Case)
    → all test (done ++ c ∷ rest) ≡ true
    → test c ≡ true
all-split test [] rest c h = ground arith
all-split test (d ∷ ds) rest c h = all-split test ds rest c (ground arith)

module _ {Value Observation : Type 0} (below : ℕ → ℕ → Bool) (plan : Plan)
    (contracts : Dict Contract) (reading : Reading Value Observation)
    (reference candidate : Target Observation) where
  abbrev run : String → Bool → Ended Value Observation
  run target_spec same_spec =
      run_targets below plan contracts reading target_spec same_spec reference candidate

  Balanced-told :
      (done : List Case) (e : Ended Value Observation) (before : List Event) (last : Event)
      → completion last ≡ []
      → refusal last ≡ []
      → is_end last ≡ true
      → Balanced plan contracts reading reference candidate done e.run.case_results
          e.run.unsupported before
      → e.run.journal ≡ before ++ last ∷ []
      → (completions e.run.journal ≡ verdicts e.run.case_results)
        × (refusals e.run.journal ≡ e.run.unsupported)
        × (has_ended e.run.journal ≡ true)
  Balanced-told done e before last quiet silent ends b j = rw j (
    completions_quiet before last quiet ∙ b.told,
    refusals_quiet before last silent ∙ b.told_refused,
    ground (arith, has_ended-log before last),
  )

  -- Where closing the targets returns, the journal of a run, completed or failed, gives back the
  -- run's results: its `case_completed` entries are the ids and verdicts of the evaluated cases,
  -- its `case_unsupported` entries the unsupported cases with their reasons, in order; and the
  -- journal says that the run has ended.
  pub run_targets-completions :
      (target_spec : String) (same_spec : Bool)
      → (completions (run target_spec same_spec).run.journal
          ≡ verdicts (run target_spec same_spec).run.case_results)
        × (refusals (run target_spec same_spec).run.journal
            ≡ (run target_spec same_spec).run.unsupported)
        × (has_ended (run target_spec same_spec).run.journal ≡ true)
  run_targets-completions target_spec same_spec =
      elim (run_targets_ends below plan contracts reading reference candidate target_spec
        same_spec) [
          | finished d h ↦
              Balanced-told plan.selected (run target_spec same_spec) h.before _ refl refl refl
                (rw (h.results, h.refused) h.balanced) h.journal
          | failed done rest c error split h ↦
              Balanced-told done (run target_spec same_spec) h.before _ refl refl refl h.balanced
                h.journal
        ]

  -- the selected case is skipped or its Contract is in the corpus
  abbrev pub contract_known : Case → Bool
  contract_known c =
      not (is_supported plan contracts reading reference candidate c)
      || elem c.contract (keys contracts)

  contradicts-Cause :
      (c : Case) (error : Error)
      → ((n : ℕ) → (o : Observation) × (reference.execute n c ≡ ok o))
      → ((n : ℕ) → (o : Observation) × (candidate.execute n c ≡ ok o))
      → elem c.contract (keys contracts) ≡ true
      → ¬ (Cause plan contracts reading reference candidate c error)
  contradicts-Cause c error first second known (no_contract absent) =
      absurd (cc (known, (lookup-none_iff c.contract contracts).0 absent))
  contradicts-Cause c error first second known (reference_failed n raised) =
      let (o, returned) = first n in absurd (cc (raised, returned))
  contradicts-Cause c error first second known (candidate_failed n raised) =
      let (o, returned) = second n in absurd (cc (raised, returned))

  -- If the two targets answer every case they support, closing them returns, and the Contract of
  -- every selected case that both support is in the corpus, the run is completed with a document:
  -- no exception is left, scoring included.
  pub run_targets_completes :
      (target_spec : String) (same_spec : Bool)
      → ((n : ℕ) (c : Case)
          → reference.supports c ≡ true
          → (o : Observation) × (reference.execute n c ≡ ok o))
      → ((n : ℕ) (c : Case)
          → candidate.supports c ≡ true
          → (o : Observation) × (candidate.execute n c ≡ ok o))
      → all contract_known plan.selected ≡ true
      → (d : Document Value) × ((run target_spec same_spec).outcome ≡ ok d)
        × (case_ids (case_results_of d.cases)
            ≡ selected_ids
                (keep (is_supported plan contracts reading reference candidate) plan.selected))
  run_targets_completes target_spec same_spec first second known =
      elim (run_targets_ends below plan contracts reading reference candidate target_spec
        same_spec) [
          | finished d h ↦ (d, h.outcome, h.balanced.evaluated)
          | failed done rest c error split h ↦
              let (left, right) = and-true (reference.supports c) (candidate.supports c) h.taken in
              let here : contract_known c ≡ true =
                all-split contract_known done rest c (rw (← split) known) in
              let present : elem c.contract (keys contracts) ≡ true = ground (arith, h.taken) in
              absurd (
                contradicts-Cause c error (λ n. first n c left) (λ n. second n c right) present
                  h.cause)
        ]

  -- A completed run accounts for every selected case, as evaluated or as unsupported, in the order
  -- of the selection and once each; it makes two queries for each evaluated case, or one where the
  -- reference's observation is used for the candidate too.
  pub run_targets-selected_ids :
      (target_spec : String) (same_spec : Bool) (d : Document Value)
      → (run target_spec same_spec).outcome ≡ ok d
      → (case_ids (case_results_of d.cases)
          ≡ selected_ids
              (keep (is_supported plan contracts reading reference candidate) plan.selected))
        × (unsupported_ids d.unsupported
            ≡ selected_ids (
                keep
                  (λ c. not (is_supported plan contracts reading reference candidate c))
                  plan.selected))
        × ((run target_spec same_spec).run.oracle_queries
            ≡ (if (run target_spec same_spec).run.reuse then 1 else 2) * length d.cases)
  run_targets-selected_ids target_spec same_spec d returned =
      elim (run_targets_ends below plan contracts reading reference candidate target_spec
        same_spec) [
          | finished e h ↦
              let same : e ≡ d = cc (returned, h.outcome) in
              rw (← same) (h.balanced.evaluated, h.balanced.refused, h.queries)
          | failed done rest c error split h ↦ absurd (cc (returned, h.outcome))
        ]

  counted_cases :
      (d : Document Value) (before : List Event)
      → Balanced plan contracts reading reference candidate plan.selected d.cases d.unsupported
          before
      → length plan.selected
        ≡ length (case_results_of d.cases) + length (unsupported_ids d.unsupported)
  counted_cases d before b =
      let parts =
        length-ids_split (is_supported plan contracts reading reference candidate) plan.selected in
      let evaluated = sym (length-case_ids d.cases) ∙ ap length b.evaluated in
      let refused = ap length b.refused in parts ∙ rw (evaluated, refused) refl

  -- The document of a completed run over distinct cases passes `validate_results`.
  pub run_targets-validate_results :
      (target_spec : String) (same_spec : Bool) (d : Document Value)
      → nodup (selected_ids plan.selected) ≡ true
      → (run target_spec same_spec).outcome ≡ ok d
      → validate_results (as_results d) ≡ []
  run_targets-validate_results target_spec same_spec d distinct returned =
      elim (run_targets_ends below plan contracts reading reference candidate target_spec
        same_spec) [
          | finished e h ↦
              let same : e ≡ d = cc (returned, h.outcome) in
              rw (← same) (
                (validate_results-IsValid (as_results e)).1 (record {
                  complete = refl;
                  schema = refl;
                  accounted = λ n requested.
                      sym (cc (requested, h.selection)) ∙ counted_cases e h.before h.balanced;
                  distinct = rw h.balanced.evaluated (
                      nodup-ids_keep (is_supported plan contracts reading reference candidate)
                        plan.selected distinct);
                }))
          | failed done rest c error split h ↦ absurd (cc (returned, h.outcome))
        ]
