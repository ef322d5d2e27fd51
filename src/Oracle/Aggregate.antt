-- ===== src/Oracle/Aggregate.antt =====
-- `aggregate_contract_results` of src/osbench/oracle.py.
pub mod Correct
use os_bench.Common.{
  ℕ, String, Bool, true, false, not, List, [], ◌∷◌, Dict, length, count_if, nat_eq, if◌then◌else◌,
}
use os_bench.Common.Groups.{group_by}
use os_bench.Common.Items.{sorted_items}

-- `passed` is `bool(result.get("passed"))`.
pub record CaseResult : Type 0 where
  pub case_id : String
  pub contract : String
  pub passed : Bool

-- A quotient of counts, as they are divided.
pub record Rate : Type 0 where
  pub numerator : ℕ
  pub denominator : ℕ

pub record Aggregate : Type 0 where
  pub passed : Bool
  pub pass_rate : Rate
  pub case_count : ℕ
  pub failed_cases : List String

unfoldable pub failed_ids : List CaseResult → List String
failed_ids [] = []
failed_ids (r ∷ rs) = let rest = failed_ids rs in if not r.passed then r.case_id ∷ rest else rest

-- the body of the loop over `sorted(grouped.items())`
unfoldable pub aggregate : List CaseResult → Aggregate
unfolding failed_ids
aggregate results =
    let passed_count = count_if (λ (r : CaseResult). r.passed) results in
    record {
      passed = nat_eq passed_count (length results);
      pass_rate = record { numerator = passed_count; denominator = length results };
      case_count = length results;
      failed_cases = failed_ids results;
    }

unfoldable pub aggregate_all : List (String × List CaseResult) → Dict Aggregate
unfolding aggregate
aggregate_all [] = []
aggregate_all ((contract_id, results) ∷ rest) =
    (contract_id, aggregate results) ∷ aggregate_all rest

unfoldable pub aggregate_contract_results : List CaseResult → Dict Aggregate
unfolding aggregate_all
aggregate_contract_results case_results =
    aggregate_all (sorted_items (group_by (λ (r : CaseResult). r.contract) case_results))
