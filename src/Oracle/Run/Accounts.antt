-- ===== src/Oracle/Run/Accounts.antt =====
-- What the variables and the journal of a run of src/osbench/oracle.py say of the cases that were
-- taken so far, and that the operations of the loop keep it so.
use os_bench.Common.{
  ℕ, String, ◌≡◌, refl, sym, ap, ◌∙◌, Bool, true, false, not, List, [], ◌∷◌, ◌++◌, keep, elem, Dict,
  keys, lookup, lookup-none_iff, some, Bool-cases, inl, inr, arith,
}
use os_bench.Contracts.Model.{Contract}
use os_bench.Oracle.Selection.{Case}
use os_bench.Oracle.Run.State.{
  Plan, Run, CaseRun, Unsupported, Event, case_results_of, unsupported_ids, persist, case_started,
  case_unsupported, reference_observed, candidate_observed, case_completed,
}
use os_bench.Oracle.Run.Cases.{
  Target, Reading, start_case, skip_case, keep_reference, keep_candidate, complete_case,
}
use os_bench.Oracle.Run.Steps.{supported}
use os_bench.Oracle.Run.Journal.{
  verdicts, verdicts-append, completions, refusals, has_ended, completion, refusal, is_end,
  completions-log, refusals-log, completions_quiet, refusals_quiet, has_ended_quiet,
}
use os_bench.Results.{case_ids}
use os_bench.Scoring.Collected.{all_known}

unfoldable pub selected_ids : List Case → List String
selected_ids [] = []
selected_ids (c ∷ cs) = c.case_id ∷ selected_ids cs

ids_kept :
    (test : Case → Bool) (done : List Case) (c : Case)
    → test c ≡ true
    → selected_ids (keep test (done ++ c ∷ [])) ≡ selected_ids (keep test done) ++ c.case_id ∷ []
unfolding selected_ids
ids_kept test [] c taken = rw taken refl
ids_kept test (d ∷ ds) c taken = elim (Bool-cases (test d)) [
  | inl e ↦ rw e (ap (λ l. d.case_id ∷ l) (ids_kept test ds c taken))
  | inr e ↦ rw e (ids_kept test ds c taken)
]

ids_left :
    (test : Case → Bool) (done : List Case) (c : Case)
    → test c ≡ false
    → selected_ids (keep test (done ++ c ∷ [])) ≡ selected_ids (keep test done)
unfolding selected_ids
ids_left test [] c left = rw left refl
ids_left test (d ∷ ds) c left = elim (Bool-cases (test d)) [
  | inl e ↦ rw e (ap (λ l. d.case_id ∷ l) (ids_left test ds c left))
  | inr e ↦ rw e (ids_left test ds c left)
]

case_ids-append :
    {Value : Type 0} (rs : List (CaseRun Value)) (r : CaseRun Value)
    → case_ids (case_results_of (rs ++ r ∷ [])) ≡ case_ids (case_results_of rs) ++ r.case_id ∷ []
case_ids-append [] r = refl
case_ids-append (x ∷ xs) r = ap (λ l. x.case_id ∷ l) (case_ids-append xs r)

unsupported_ids-append :
    (us : List Unsupported) (u : Unsupported)
    → unsupported_ids (us ++ u ∷ []) ≡ unsupported_ids us ++ u.case_id ∷ []
unsupported_ids-append [] u = refl
unsupported_ids-append (x ∷ xs) u = ap (λ l. x.case_id ∷ l) (unsupported_ids-append xs u)

all_known-append :
    {Value : Type 0} (contracts : Dict Contract) (rs : List (CaseRun Value)) (r : CaseRun Value)
    → all_known contracts (case_results_of rs) ≡ true
    → elem r.contract (keys contracts) ≡ true
    → all_known contracts (case_results_of (rs ++ r ∷ [])) ≡ true
all_known-append contracts [] r h known = ground arith
all_known-append contracts (x ∷ xs) r h known =
    ground (arith, all_known-append contracts xs r (ground arith) known)

elem_of_lookup :
    (contracts : Dict Contract) (k : String) (v : Contract)
    → lookup k contracts ≡ some v
    → elem k (keys contracts) ≡ true
elem_of_lookup contracts k v found = ground (arith, lookup-none_iff k contracts)

module _ {Value Observation : Type 0} (plan : Plan) (contracts : Dict Contract)
    (reading : Reading Value Observation) (reference candidate : Target Observation) where
  abbrev pub is_supported : Case → Bool
  is_supported c = supported plan contracts reading reference candidate c

  -- The cases `done` are all in the results or among the unsupported, in order and each once, under
  -- Contracts of the corpus; and the journal tells the same.
  pub record Balanced (done : List Case) (results : List (CaseRun Value))
      (unsupported : List Unsupported) (journal : List Event) : Type 0 where
    pub evaluated : case_ids (case_results_of results) ≡ selected_ids (keep is_supported done)
    pub refused : unsupported_ids unsupported ≡ selected_ids (keep (λ c. not (is_supported c)) done)
    pub known : all_known contracts (case_results_of results) ≡ true
    pub told : completions journal ≡ verdicts results
    pub told_refused : refusals journal ≡ unsupported
    pub unfinished : has_ended journal ≡ false

  abbrev pub Accounted : List Case → Run Value Observation → Type 0
  Accounted done s = Balanced done s.case_results s.unsupported s.journal

  -- an entry that tells of no case
  Balanced-quiet :
      (done : List Case) (results : List (CaseRun Value)) (unsupported : List Unsupported)
      (journal : List Event) (e : Event)
      → completion e ≡ []
      → refusal e ≡ []
      → is_end e ≡ false
      → Balanced done results unsupported journal
      → Balanced done results unsupported (journal ++ e ∷ [])
  Balanced-quiet done results unsupported journal e verdict reason last h = record {
    evaluated = h.evaluated;
    refused = h.refused;
    known = h.known;
    told = completions_quiet journal e verdict ∙ h.told;
    told_refused = refusals_quiet journal e reason ∙ h.told_refused;
    unfinished = has_ended_quiet journal e last h.unfinished;
  }

  pub start_case-Accounted :
      (done : List Case) (s : Run Value Observation) (position : ℕ) (c : Case)
      → Accounted done s
      → Accounted done (start_case plan contracts reading reference candidate position c s)
  unfolding start_case persist
  start_case-Accounted done s position c h =
      Balanced-quiet done s.case_results s.unsupported s.journal
        (case_started position c.case_id c.contract c.probe) refl refl refl h

  pub keep_reference-Accounted :
      (done : List Case) (s : Run Value Observation) (position : ℕ) (c : Case) (seen : Observation)
      → Accounted done s
      → Accounted done (keep_reference plan contracts reading reference candidate position c seen s)
  unfolding keep_reference persist
  keep_reference-Accounted done s position c seen h =
      Balanced-quiet done s.case_results s.unsupported s.journal
        (reference_observed position c.case_id (reading.status seen)) refl refl refl h

  pub keep_candidate-Accounted :
      (done : List Case) (s : Run Value Observation) (position : ℕ) (c : Case) (shown : Observation)
      → Accounted done s
      → Accounted done
          (keep_candidate plan contracts reading reference candidate position c shown s)
  unfolding keep_candidate
  keep_candidate-Accounted done s position c shown h =
      Balanced-quiet done s.case_results s.unsupported s.journal
        (candidate_observed position c.case_id (reading.status shown) s.reuse) refl refl refl h

  pub skip_case-Accounted :
      (done : List Case) (s : Run Value Observation) (position : ℕ) (c : Case) (reason : String)
      → is_supported c ≡ false
      → Accounted done s
      → Accounted
          (done ++ c ∷ [])
          (skip_case plan contracts reading reference candidate position c reason s)
  unfolding skip_case persist
  skip_case-Accounted done s position c reason refused h =
      let entry = case_unsupported position c.case_id reason in
      record {
        evaluated = h.evaluated ∙ sym (ids_left is_supported done c refused);
        refused =
            unsupported_ids-append s.unsupported (record { case_id = c.case_id; reason = reason })
            ∙ (ap (λ l. l ++ c.case_id ∷ []) h.refused
                ∙ sym (ids_kept (λ c. not (is_supported c)) done c (ap not refused)));
        known = h.known;
        told = completions_quiet s.journal entry refl ∙ h.told;
        told_refused = refusals-log s.journal entry ∙ ap (λ l. l ++ refusal entry) h.told_refused;
        unfinished = has_ended_quiet s.journal entry refl h.unfinished;
      }

  pub complete_case-Accounted :
      (done : List Case) (s : Run Value Observation) (position : ℕ) (c : Case) (contract : Contract)
      (result : CaseRun Value)
      → result.case_id ≡ c.case_id
      → result.contract ≡ c.contract
      → is_supported c ≡ true
      → lookup c.contract contracts ≡ some contract
      → Accounted done s
      → Accounted
          (done ++ c ∷ [])
          (complete_case plan contracts reading reference candidate position c result s)
  unfolding complete_case persist
  complete_case-Accounted done s position c contract result same under taken found h =
      let entry = case_completed position c.case_id result.passed in
      record {
        evaluated =
            case_ids-append s.case_results result
            ∙ (ap (λ l. l ++ result.case_id ∷ []) h.evaluated
                ∙ (ap (λ k. selected_ids (keep is_supported done) ++ k ∷ []) same
                    ∙ sym (ids_kept is_supported done c taken)));
        refused = h.refused ∙ sym (ids_left (λ c. not (is_supported c)) done c (ap not taken));
        known = all_known-append contracts s.case_results result h.known (
            ap (λ k. elem k (keys contracts)) under
            ∙ elem_of_lookup contracts c.contract contract found);
        told =
            completions-log s.journal entry
            ∙ (ap (λ l. l ++ completion entry) h.told
                ∙ (ap
                      (λ k.
                        verdicts s.case_results
                        ++ record { case_id = k; passed = result.passed } ∷ [])
                      (sym same)
                    ∙ sym (verdicts-append s.case_results result)));
        told_refused = refusals_quiet s.journal entry refl ∙ h.told_refused;
        unfinished = has_ended_quiet s.journal entry refl h.unfinished;
      }
