-- ===== src/Samples/ScoringCases.antt =====
-- The theorems on src/osbench/scoring.py for a corpus with two boot Contracts.
use os_bench.Common.{
  ℕ, String, ◌≡◌, refl, ◌↔◌, Bool, true, false, List, [], ◌∷◌, ◌++◌, ◌*◌, none, Dict, ltb,
}
use os_bench.Common.Result.{ok}
use os_bench.Contracts.Model.{Contract}
use os_bench.Oracle.Aggregate.{CaseResult, Rate}
use os_bench.Scoring.{Scores, levels, depth, score_results}
use os_bench.Scoring.Levels.{IsAtLevel}
use os_bench.Scoring.Gate.{IsPassed, score_results-boot_gate}
use os_bench.Scoring.Depth.{last_of, AllReached, Stops, depth-Prefix}
use os_bench.Samples.Corpus.{contract}

-- `passed / total < 0.9`
abbrev below : ℕ → ℕ → Bool
below passed total = ltb (passed * 10) (total * 9)

abbrev at : String → String → Contract
at level id = record (contract id []) { level = level }

abbrev contracts : Dict Contract
contracts =
    ("init", at "boot" "init") ∷ ("shell", at "boot" "shell") ∷ ("cpu", at "machine" "cpu") ∷ []

abbrev result : String → Bool → CaseResult
result id passed = record { case_id = id; contract = id; passed = passed }

abbrev results : List CaseResult
results = result "init" true ∷ result "cpu" false ∷ result "shell" true ∷ []

score_results-boot_gate_example :
    (s : Scores) × (score_results below results contracts ≡ ok s)
    × ((s.boot_gate ≡ true) ↔ (
        ((k : String) × IsAtLevel "boot" contracts k)
        × ((k : String) → IsAtLevel "boot" contracts k → IsPassed results k)))
score_results-boot_gate_example = score_results-boot_gate below results contracts refl refl

abbrev scores : Dict Rate
scores =
    ("init", record { numerator = 2; denominator = 2 })
    ∷ ("shell", record { numerator = 1; denominator = 1 })
    ∷ []

depth-Prefix_example :
    (reached : List String) × (left : List String) × (levels ≡ reached ++ left)
    × (depth below contracts scores false ≡ last_of none reached)
    × AllReached below contracts scores false [] reached
    × Stops below contracts scores false reached left
depth-Prefix_example = depth-Prefix below contracts scores false
