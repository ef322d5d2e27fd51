-- ===== src/Oracle/Run/Journal.antt =====
-- The journal of a run (`run.journal.jsonl`, written by `evaluate`), read back: what it says of the
-- cases, without the state it was written from.
use mathlib.Core.List.{append-nil, append_assoc}
use os_bench.Common.{
  String, ◌≡◌, refl, sym, ap, ◌∙◌, Bool, true, false, ◌||◌, List, [], ◌∷◌, ◌++◌, arith,
}
use os_bench.Oracle.Run.State.{
  Event, run_started, case_started, case_unsupported, reference_observed, candidate_observed,
  case_completed, run_failed, run_completed, CaseRun, Unsupported,
}

-- the verdict on a case
pub record Verdict : Type 0 where
  pub case_id : String
  pub passed : Bool

unfoldable pub verdicts : {Value : Type 0} → List (CaseRun Value) → List Verdict
verdicts [] = []
verdicts (r ∷ rs) = record { case_id = r.case_id; passed = r.passed } ∷ verdicts rs

-- the verdict that an entry records
abbrev pub completion : Event → List Verdict
completion (run_started selected shards shard) = []
completion (case_started position name contract probe) = []
completion (case_unsupported position name reason) = []
completion (reference_observed position name status) = []
completion (candidate_observed position name status reused) = []
completion (case_completed position name passed) = record { case_id = name; passed = passed } ∷ []
completion (run_failed position name error) = []
completion (run_completed position evaluated refused) = []

-- the refusal that an entry records
abbrev pub refusal : Event → List Unsupported
refusal (run_started selected shards shard) = []
refusal (case_started position name contract probe) = []
refusal (case_unsupported position name reason) = record { case_id = name; reason = reason } ∷ []
refusal (reference_observed position name status) = []
refusal (candidate_observed position name status reused) = []
refusal (case_completed position name passed) = []
refusal (run_failed position name error) = []
refusal (run_completed position evaluated refused) = []

-- `run_failed` and `run_completed`
abbrev pub is_end : Event → Bool
is_end (run_started selected shards shard) = false
is_end (case_started position name contract probe) = false
is_end (case_unsupported position name reason) = false
is_end (reference_observed position name status) = false
is_end (candidate_observed position name status reused) = false
is_end (case_completed position name passed) = false
is_end (run_failed position name error) = true
is_end (run_completed position evaluated refused) = true

unfoldable pub completions : List Event → List Verdict
completions [] = []
completions (e ∷ es) = completion e ++ completions es

unfoldable pub refusals : List Event → List Unsupported
refusals [] = []
refusals (e ∷ es) = refusal e ++ refusals es

unfoldable pub has_ended : List Event → Bool
has_ended [] = false
has_ended (e ∷ es) = is_end e || has_ended es

pub completions-log :
    (journal : List Event) (e : Event)
    → completions (journal ++ e ∷ []) ≡ completions journal ++ completion e
unfolding completions
completions-log [] e = append-nil (completion e)
completions-log (x ∷ xs) e =
    ap (λ l. completion x ++ l) (completions-log xs e)
    ∙ sym (append_assoc (completion x) (completions xs) (completion e))

pub refusals-log :
    (journal : List Event) (e : Event)
    → refusals (journal ++ e ∷ []) ≡ refusals journal ++ refusal e
unfolding refusals
refusals-log [] e = append-nil (refusal e)
refusals-log (x ∷ xs) e =
    ap (λ l. refusal x ++ l) (refusals-log xs e)
    ∙ sym (append_assoc (refusal x) (refusals xs) (refusal e))

pub has_ended-log :
    (journal : List Event) (e : Event)
    → has_ended (journal ++ e ∷ []) ≡ (has_ended journal || is_end e)
unfolding has_ended
has_ended-log [] e = ground arith
has_ended-log (x ∷ xs) e = ground (arith, has_ended-log xs e)

-- an entry that records no verdict
pub completions_quiet :
    (journal : List Event) (e : Event)
    → completion e ≡ []
    → completions (journal ++ e ∷ []) ≡ completions journal
completions_quiet journal e quiet =
    completions-log journal e
    ∙ (ap (λ l. completions journal ++ l) quiet ∙ append-nil (completions journal))

-- an entry that records no refusal
pub refusals_quiet :
    (journal : List Event) (e : Event)
    → refusal e ≡ []
    → refusals (journal ++ e ∷ []) ≡ refusals journal
refusals_quiet journal e quiet =
    refusals-log journal e ∙ (ap (λ l. refusals journal ++ l) quiet ∙ append-nil (refusals journal))

pub has_ended_quiet :
    (journal : List Event) (e : Event)
    → is_end e ≡ false
    → has_ended journal ≡ false
    → has_ended (journal ++ e ∷ []) ≡ false
has_ended_quiet journal e quiet open_yet = ground (arith, has_ended-log journal e)

pub verdicts-append :
    {Value : Type 0} (rs : List (CaseRun Value)) (r : CaseRun Value)
    → verdicts (rs ++ r ∷ [])
      ≡ verdicts rs ++ record { case_id = r.case_id; passed = r.passed } ∷ []
unfolding verdicts
verdicts-append [] r = refl
verdicts-append (x ∷ xs) r =
    ap (λ l. record { case_id = x.case_id; passed = x.passed } ∷ l) (verdicts-append xs r)
