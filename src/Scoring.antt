-- ===== src/Scoring.antt =====
-- src/osbench/scoring.py: the scores of the Contracts, the boot gates and the depth. A quotient of
-- counts is kept as the two counts; `below passed total` is the floating-point test
-- `passed / total < depth_threshold`. The weighted mean and the native thresholds, which are
-- floating-point sums, are not modelled.
pub mod Collected
pub mod Levels
pub mod Gate
pub mod Depth
use os_bench.Common.{
  ℕ, zero, suc, ◌+◌, String, Bool, true, false, not, ◌&&◌, ◌||◌, List, [], ◌∷◌, ◌++◌, ◌==◌, Option,
  none, some, Dict, keys, lookup, push, elem, all, keep, count_if, length, leb, if◌then◌else◌,
}
use os_bench.Common.Result.{Result, ok, err, Error, key_error, ◌>>=◌}
use os_bench.Common.Sort.{sorted}
use os_bench.Common.Text.{concat}
use os_bench.Contracts.Model.{Contract}
use os_bench.Oracle.Aggregate.{CaseResult, Rate}

abbrev pub levels : List String
levels =
    "boot" ∷ "machine" ∷ "linux_primitives" ∷ "kernel_subsystems" ∷ "linux_process_environment"
    ∷ "posix_userspace" ∷ "linux_system" ∷ "distro" ∷ "package_ecosystem" ∷ "real_workloads"
    ∷ "full_reconstruction" ∷ []

-- The loop over `case_results`; a group holds the results, of which the source keeps `passed`.
unfoldable pub collect :
    Dict Contract → List CaseResult → Dict (List CaseResult) → Result (Dict (List CaseResult))
collect contracts [] by_contract = ok by_contract
collect contracts (r ∷ rs) by_contract = elim (elem r.contract (keys contracts)) [
  | false ↦ err (key_error (concat ("Result references unknown Contract: " ∷ r.contract ∷ [])))
  | true ↦ collect contracts rs (push r.contract r by_contract)
]

-- `sum(results) / len(results)`
abbrev pub score : List CaseResult → Rate
score results = record {
  numerator = count_if (λ (r : CaseResult). r.passed) results;
  denominator = length results;
}

-- `score >= 1.0`
abbrev pub is_full : Rate → Bool
is_full rate = leb rate.denominator rate.numerator

unfoldable pub contract_scores : Dict (List CaseResult) → Dict Rate
contract_scores [] = []
contract_scores ((contract_id, results) ∷ rest) =
    (contract_id, score results) ∷ contract_scores rest

unfoldable pub select_level : String → Dict Contract → List String
select_level level [] = []
select_level level ((contract_id, contract) ∷ rest) =
    let others = select_level level rest in
    if contract.level == level then contract_id ∷ others else others

-- `contract_ids_by_level[level]`
unfoldable pub ids_of_level : String → Dict Contract → List String
unfolding select_level
ids_of_level level contracts = sorted (select_level level contracts)

-- `contract_scores.get(contract_id, 0.0) >= 1.0`
abbrev pub full_score : Option Rate → Bool
full_score none = false
full_score (some rate) = is_full rate

abbrev pub has_full_score : Dict Rate → String → Bool
has_full_score scores contract_id = full_score (lookup contract_id scores)

abbrev pub is_scored : Dict Rate → String → Bool
is_scored scores contract_id = elem contract_id (keys scores)

abbrev pub is_nonempty : List String → Bool
is_nonempty [] = false
is_nonempty (x ∷ xs) = true

-- `ids and all(item in contract_scores and contract_passed[item] for item in ids)`
unfoldable pub gate : List String → Dict Rate → Bool
gate ids scores =
    is_nonempty ids && all (λ item. is_scored scores item && has_full_score scores item) ids

module _ (below : ℕ → ℕ → Bool) (contracts : Dict Contract) (scores : Dict Rate) where
  -- the `ids` of one round
  abbrev pub depth_ids : Bool → String → List String
  depth_ids observed_only level =
      keep (λ contract_id. not observed_only || is_scored scores contract_id)
        (ids_of_level level contracts)

  -- `for level in LEVELS`; `cumulative` is how many entries it has and how many are true
  unfoldable pub depth_loop : Bool → Option String → ℕ → ℕ → List String → Option String
  depth_loop observed_only depth passed total [] = depth
  depth_loop observed_only depth passed total (level ∷ rest) =
      let ids = depth_ids observed_only level in
      let passed' = passed + count_if (has_full_score scores) ids in
      let total' = total + length ids in
      let deeper = depth_loop observed_only (some level) passed' total' rest in
      if not (is_nonempty ids) then depth else if below passed' total' then depth else deeper

  unfoldable pub depth : Bool → Option String
  unfolding depth_loop
  depth observed_only = depth_loop observed_only none 0 0 levels

pub record Scores : Type 0 where
  pub boot_gate : Bool
  pub observed_boot_gate : Bool
  pub depth90 : Option String
  pub observed_depth90 : Option String
  pub contract_scores : Dict Rate
  pub evaluated_contracts : ℕ
  pub passed_contracts : ℕ
  pub corpus_contracts : ℕ
  pub evaluated_cases : ℕ

-- what is returned for the results by Contract
unfoldable pub document :
    (ℕ → ℕ → Bool) → List CaseResult → Dict Contract → Dict (List CaseResult) → Scores
unfolding gate depth
document below case_results contracts by_contract =
    let scores = contract_scores by_contract in
    let boot_ids = ids_of_level "boot" contracts in
    record {
      boot_gate = gate boot_ids scores;
      observed_boot_gate = gate (keep (is_scored scores) boot_ids) scores;
      depth90 = depth below contracts scores false;
      observed_depth90 = depth below contracts scores true;
      contract_scores = scores;
      evaluated_contracts = length (keys scores);
      passed_contracts = count_if (has_full_score scores) (keys scores);
      corpus_contracts = length (keys contracts);
      evaluated_cases = length case_results;
    }

unfoldable pub score_results : (ℕ → ℕ → Bool) → List CaseResult → Dict Contract → Result Scores
unfolding collect document
score_results below case_results contracts = collect contracts case_results [] >>= λ by_contract.
    ok (document below case_results contracts by_contract)
