-- ===== src/Samples/ContractsCases.antt =====
-- The theorems on src/osbench/contracts.py at the sample corpus.
use os_bench.Common.{String, [], ◌∷◌, ◌≡◌, ◌≢◌, ◌↔◌, refl}
use os_bench.Common.Sort.{sorted, sort_by, insert_sorted}
use os_bench.Common.Text.{text_leb}
use os_bench.Precedence.{Walk}
use os_bench.Contracts.Cycles.{
  cycle_search, cycle_nodes, dependencies_of, add_dependencies, visit_all, visit,
}
use os_bench.Contracts.Cycles.Clear.{DependsOn}
use os_bench.Contracts.Cycles.Decides.{cycle_nodes_decides}
use os_bench.Contracts.Validate.{validate_contracts}
use os_bench.Contracts.Validate.Corpus.{IsSound}
use os_bench.Contracts.Validate.Sound.{validate_contracts-IsSound}
use os_bench.Samples.Corpus.{corpus, corpus_files, looped}

validate_contracts-IsSound_example :
    ((validate_contracts corpus_files).issues ≡ []) ↔ IsSound corpus_files
validate_contracts-IsSound_example = validate_contracts-IsSound corpus_files

cycle_nodes_decides_example :
    (cycle_nodes corpus ≡ []) ↔ ((v : String) → ¬ Walk (DependsOn (dependencies_of corpus)) v v)
cycle_nodes_decides_example = cycle_nodes_decides corpus

looped_found : cycle_nodes looped ≡ "x" ∷ "y" ∷ "x" ∷ []
unfolding cycle_nodes cycle_search dependencies_of add_dependencies sorted sort_by insert_sorted
    text_leb visit_all visit
looped_found = refl

looped_cycle : cycle_nodes looped ≢ []
looped_cycle h = absurd (cc (looped_found, h))
