-- ===== src/Oracle/Run/Whole.antt =====
-- `evaluate` as a whole: from the corpus and the dataset to a result document.
use mathlib.Core.List.{append_assoc}
use os_bench.Common.{
  ℕ, String, ◌≡◌, refl, sym, ap, ◌∙◌, Bool, true, false, not, List, [], ◌∷◌, ◌++◌, ◌==◌, eq_iff,
  eq_refl, elem, elem-append, nodup, all, length, Dict, Option, Bool-cases, inl, inr, arith,
  if◌then◌else◌,
}
use os_bench.Common.Int.{ℤ}
use os_bench.Common.Result.{Result, ok, Error, value_error, raise_if, ◌>>◌, >>=-eq-ok, ok-injective}
use os_bench.Contracts.Model.{Contract, contracts_by_id}
use os_bench.Contracts.Validate.{ContractReport, valid}
use os_bench.Oracle.Manifest.{verify_public_dataset}
use os_bench.Oracle.Selection.{
  Case, select_cases, select_loop, one_case_each, full, below_one, outside, no_room, in_shard,
  natural,
}
use os_bench.Oracle.Selection.Each.{contracts_of, one_case_each_correct}
use os_bench.Oracle.Run.State.{Plan}
use os_bench.Oracle.Run.Cases.{Target, Reading}
use os_bench.Oracle.Run.Evaluate.{
  Document, Request, Dataset, plan_of, as_results, run_targets, run_selected, Evaluated, evaluate,
}
use os_bench.Oracle.Run.Closing.{
  close_both, gives, breaks, no_reference, no_candidate, reference_stuck, candidate_stuck,
  run_selected-Closes,
}
use os_bench.Oracle.Run.Accounts.{selected_ids}
use os_bench.Oracle.Run.Correct.{run_targets-validate_results}
use os_bench.Results.{validate_results}

nodup_first : (xs ys : List String) → nodup (xs ++ ys) ≡ true → nodup xs ≡ true
nodup_first [] ys h = refl
nodup_first (x ∷ xs) ys h = ground (arith, nodup_first xs ys, elem-append x xs ys)

nodup_without :
    (xs ys : List String) (y : String) → nodup (xs ++ y ∷ ys) ≡ true → nodup (xs ++ ys) ≡ true
nodup_without [] ys y h = ground arith
nodup_without (x ∷ xs) ys y h =
    ground (arith, nodup_without xs ys y, elem-append x xs ys, elem-append x xs (y ∷ ys))

selected_ids-append :
    (xs ys : List Case) → selected_ids (xs ++ ys) ≡ selected_ids xs ++ selected_ids ys
unfolding selected_ids
selected_ids-append [] ys = refl
selected_ids-append (x ∷ xs) ys = ap (λ l. x.case_id ∷ l) (selected_ids-append xs ys)

-- the loop selects no case twice
nodup-select_loop :
    (digest : String → ℕ) (wanted : Case → Bool) (max_cases : Option ℤ) (selected cs : List Case)
    → nodup (selected_ids (selected ++ cs)) ≡ true
    → nodup (selected_ids (select_loop digest wanted max_cases selected cs)) ≡ true
unfolding select_loop selected_ids
nodup-select_loop digest wanted max_cases selected [] h =
    nodup_first (selected_ids selected) [] (ap nodup (sym (selected_ids-append selected [])) ∙ h)
nodup-select_loop digest wanted max_cases selected (c ∷ cs) h =
    let whole : nodup (selected_ids (selected ++ c ∷ [] ++ cs)) ≡ true =
      rw (append_assoc selected (c ∷ []) cs) h in
    elim (Bool-cases (wanted c)) [
      | inr unwanted ↦
          rw (unwanted, select_loop)
            (nodup-select_loop digest wanted max_cases selected cs (
              ap nodup (selected_ids-append selected cs)
              ∙ nodup_without (selected_ids selected) (selected_ids cs) c.case_id
                  (ap nodup (sym (selected_ids-append selected (c ∷ cs))) ∙ h)))
      | inl chosen ↦ elim (Bool-cases (full max_cases (length (selected ++ c ∷ [])))) [
        | inl enough ↦
            rw (chosen, enough, select_loop)
              (nodup_first (selected_ids (selected ++ c ∷ [])) (selected_ids cs)
                (ap nodup (sym (selected_ids-append (selected ++ c ∷ []) cs)) ∙ whole))
        | inr more ↦
            rw (chosen, more, select_loop)
              (nodup-select_loop digest wanted max_cases (selected ++ c ∷ []) cs whole)
      ]
    ]

-- the Contract of the first case with an id
abbrev contract_at : String → List Case → String
contract_at k [] = ""
contract_at k (c ∷ cs) = if k == c.case_id then c.contract else contract_at k cs

contract_at_later :
    (d : Case) (ds es : List Case)
    → elem d.case_id (selected_ids es) ≡ false
    → all (λ (c : Case). contract_at c.case_id ds == c.contract) es ≡ true
    → all (λ (c : Case). contract_at c.case_id (d ∷ ds) == c.contract) es ≡ true
unfolding selected_ids
contract_at_later d ds [] h known = refl
contract_at_later d ds (e ∷ es) h known =
    ground
      (arith, contract_at_later d ds es, eq_iff d.case_id e.case_id, eq_iff e.case_id d.case_id)

-- where the ids are distinct, an id tells the Contract
contract_at_own :
    (cs : List Case)
    → nodup (selected_ids cs) ≡ true
    → all (λ (c : Case). contract_at c.case_id cs == c.contract) cs ≡ true
unfolding selected_ids
contract_at_own [] h = refl
contract_at_own (c ∷ cs) h =
    let rest = contract_at_later c cs cs (ground arith) (contract_at_own cs (ground arith)) in
    ground (arith, rest, eq_refl c.case_id, eq_refl c.contract)

elem-contracts_of :
    (f : String → String) (c : Case) (cs : List Case)
    → f c.case_id ≡ c.contract
    → all (λ (d : Case). f d.case_id == d.contract) cs ≡ true
    → elem c.case_id (selected_ids cs) ≡ true
    → elem c.contract (contracts_of cs) ≡ true
unfolding selected_ids
elem-contracts_of f c [] own known there = absurd (cc there)
elem-contracts_of f c (d ∷ ds) own known there = elim (Bool-cases (c.case_id == d.case_id)) [
  | inl same ↦
      let e : c.case_id ≡ d.case_id = (eq_iff c.case_id d.case_id).0 same in
      let k : f d.case_id ≡ d.contract = (eq_iff (f d.case_id) d.contract).0 (ground arith) in
      let both : c.contract ≡ d.contract = sym own ∙ (ap f e ∙ k) in
      rw both (ground (arith, eq_refl d.contract))
  | inr other ↦ ground (arith, elem-contracts_of f c ds own)
]

nodup_of_contracts :
    (f : String → String) (cs : List Case)
    → all (λ (d : Case). f d.case_id == d.contract) cs ≡ true
    → nodup (contracts_of cs) ≡ true
    → nodup (selected_ids cs) ≡ true
unfolding selected_ids
nodup_of_contracts f [] known h = refl
nodup_of_contracts f (c ∷ cs) known h =
    let own : f c.case_id ≡ c.contract = (eq_iff (f c.case_id) c.contract).0 (ground arith) in
    let fresh : elem c.case_id (selected_ids cs) ≡ false =
      elim (Bool-cases (elem c.case_id (selected_ids cs))) [
        | inr away ↦ away
        | inl there ↦ absurd (cc (elem-contracts_of f c cs own (ground arith) there, not-elem))
      ] in
    ground (arith, fresh, nodup_of_contracts f cs)
  where
    not-elem : elem c.contract (contracts_of cs) ≡ false
    not-elem = ground arith

nodup-one_case_each :
    (cases chosen : List Case)
    → nodup (selected_ids cases) ≡ true
    → one_case_each cases ≡ ok chosen
    → nodup (selected_ids chosen) ≡ true
nodup-one_case_each cases chosen h returned =
    let (found, it, inside, once, covered) = one_case_each_correct cases in
    let same : found ≡ chosen = ok-injective (sym it ∙ returned) in
    rw (← same) (
      nodup_of_contracts (λ k. contract_at k cases) found
        (inside (λ c. contract_at c.case_id cases == c.contract) (contract_at_own cases h)) once)

raise_if-ok :
    {A : Type 0} (bad : Bool) (e : Error) (next : Result A) (a : A)
    → (raise_if bad e >> next) ≡ ok a
    → (bad ≡ false) × (next ≡ ok a)
raise_if-ok true e next a h = absurd (cc h)
raise_if-ok false e next a h = (refl, h)

nodup-select_cases :
    (digest : String → ℕ) (cases : List Case) (each : Bool) (max_cases : Option ℤ) (n i : ℤ)
    (selected : List Case)
    → nodup (selected_ids cases) ≡ true
    → select_cases digest cases each max_cases n i ≡ ok selected
    → nodup (selected_ids selected) ≡ true
unfolding select_cases
nodup-select_cases digest cases each max_cases n i selected h returned =
    let guards =
      raise_if (below_one n) (value_error "shard_count must be at least 1")
      >> raise_if (outside i n)
          (value_error "shard_index must satisfy 0 <= shard_index < shard_count")
      >> raise_if (no_room max_cases) (value_error "max_cases must be at least 1") in
    let chosen = (if each then one_case_each cases else ok cases) in
    let (u, passed, rest) = >>=-eq-ok guards _ returned in
    let (pool, pooled, last) = >>=-eq-ok chosen _ rest in
    let loop =
      nodup-select_loop digest (in_shard digest (natural n) (natural i)) max_cases [] pool in
    rw (← ok-injective last) (loop (distinct_pool each pool pooled))
  where
    distinct_pool :
        (each : Bool) (pool : List Case)
        → (if each then one_case_each cases else ok cases) ≡ ok pool
        → nodup (selected_ids pool) ≡ true
    distinct_pool true pool made = nodup-one_case_each cases pool h made
    distinct_pool false pool made = let e : cases ≡ pool = ok-injective made in rw (← e) h

run_selected-outcome :
    {Value Observation : Type 0} (below : ℕ → ℕ → Bool) (plan : Plan) (contracts : Dict Contract)
    (reading : Reading Value Observation) (open_target : String → Result (Target Observation))
    (reference_spec target_spec : String) (d : Document Value)
    → (run_selected below plan contracts reading open_target reference_spec target_spec).outcome
      ≡ ok d
    → (reference : Target Observation) × (candidate : Target Observation) × (open_target
          reference_spec
        ≡ ok reference)
      × (open_target target_spec ≡ ok candidate)
      × ((run_targets below plan contracts reading target_spec
            (target_spec == reference_spec)
            reference
            candidate).outcome
          ≡ ok d)
unfolding run_selected
run_selected-outcome below plan contracts reading open_target reference_spec target_spec d
      returned =
    elim (run_selected-Closes below plan contracts reading open_target reference_spec target_spec) [
      | gives reference candidate other served is shut ended ↦
          let r = served.reference_opens in
          let c = served.candidate_opens in
          (
            reference,
            candidate,
            r,
            c,
            rw
                (
                  r,
                  c,
                  close_both reference.close candidate.close served.reference_closes
                      served.candidate_closes,
                  run_selected,
                )
                at returned,
          )
      | breaks reference candidate c e served cause is shut ended ↦ absurd (cc (is, returned))
      | no_reference e refused is shut ended ↦ absurd (cc (is, returned))
      | no_candidate reference e found refused freed is shut ended ↦ absurd (cc (is, returned))
      | reference_stuck reference e found stuck is shut ↦ absurd (cc (is, returned))
      | candidate_stuck reference candidate e found here freed stuck is shut ↦
          absurd (cc (is, returned))
    ]

-- If the case ids of the corpus are distinct and `evaluate` comes to a document, the
-- Contracts were valid, the dataset was that of its manifest, and both targets were opened; and the document
-- passes `validate_results`, whether or not one case per Contract was asked for.
pub evaluate-validate_results :
    {Value Observation : Type 0} (below : ℕ → ℕ → Bool) (digest : String → ℕ)
    (reading : Reading Value Observation) (open_target : String → Result (Target Observation))
    (checkpoint_every : ℤ) (dataset : Dataset) (report : ContractReport) (request : Request)
    (ended : Evaluated Value Observation) (d : Document Value)
    → nodup (selected_ids dataset.corpus) ≡ true
    → evaluate below digest reading open_target checkpoint_every dataset report request ≡ ok ended
    → ended.outcome ≡ ok d
    → (valid report ≡ true)
      × (verify_public_dataset dataset.manifest
            (length dataset.corpus)
            dataset.count_text
            dataset.dataset_file_sha256
            dataset.contract_corpus_sha256
          ≡ ok tt)
      × ((reference : Target Observation) × (candidate : Target Observation) × (open_target
              request.reference_spec
            ≡ ok reference)
          × (open_target request.target_spec ≡ ok candidate))
      × (validate_results (as_results d) ≡ [])
unfolding evaluate
evaluate-validate_results {Value = Value} {Observation = Observation} below digest reading
      open_target checkpoint_every dataset report request ended d distinct returned outcome =
    let checked =
      verify_public_dataset dataset.manifest (length dataset.corpus) dataset.count_text
        dataset.dataset_file_sha256 dataset.contract_corpus_sha256 in
    let (u, guards, rest) =
      >>=-eq-ok
        (raise_if (not (valid report)) (value_error "Contract corpus is invalid") >> checked) _
        returned in
    let (sound, bound) =
      raise_if-ok (not (valid report)) (value_error "Contract corpus is invalid") checked u
        guards in
    let (selected, chosen, last) =
      >>=-eq-ok
        (select_cases digest dataset.corpus request.one_per_contract request.max_cases
          request.shard_count request.shard_index)
        _ rest in
    let plan = plan_of request dataset checkpoint_every selected in
    let ran = ap (λ (e : Evaluated Value Observation). e.outcome) (ok-injective last) ∙ outcome in
    let (reference, candidate, found, here, completed) =
      run_selected-outcome below plan (contracts_by_id report.contracts) reading open_target
        request.reference_spec request.target_spec d ran in
    (
      ground arith,
      bound,
      (reference, candidate, found, here),
      run_targets-validate_results below plan (contracts_by_id report.contracts) reading reference
          candidate request.target_spec (request.target_spec == request.reference_spec) d
          (nodup-select_cases digest dataset.corpus request.one_per_contract request.max_cases
            request.shard_count request.shard_index selected distinct chosen)
          completed,
    )
