-- ===== src/Trajectory.antt =====
-- src/osbench/trajectory.py: the metrics of a run.
use os_bench.Common.{ℕ, String, Dict, count_if}
use os_bench.Oracle.Aggregate.{Aggregate}

-- what `result_metrics` computes; its other members are the clock and `None`
pub record Metrics : Type 0 where
  pub evaluated_cases : ℕ
  pub oracle_queries : ℕ
  pub passed_contracts : ℕ
  pub target : String

unfoldable pub result_metrics : Dict Aggregate → ℕ → ℕ → String → Metrics
result_metrics contract_results evaluated_cases oracle_queries target_spec = record {
  evaluated_cases = evaluated_cases;
  oracle_queries = oracle_queries;
  passed_contracts = count_if (λ (item : String × Aggregate). item.1.passed) contract_results;
  target = target_spec;
}
