-- ===== src/Samples/MinimizationCases.antt =====
-- The theorems on the minimizers, for a failure that needs two of the operations.
use os_bench.Common.{String, ◌≡◌, Bool, ◌&&◌, List, [], ◌∷◌, elem, some}
use os_bench.Minimization.{minimize_sequence}
use os_bench.Minimization.Minimal.{IsReduced, minimize_sequence-IsReduced}

abbrev crashes : List String → Bool
crashes operations = elem "open" operations && elem "unlink" operations

abbrev operations : List String
operations = "open" ∷ "write" ∷ "seek" ∷ "unlink" ∷ "close" ∷ []

minimize_sequence-IsReduced_example :
    (result : List String) × (minimize_sequence crashes operations ≡ some result)
    × IsReduced crashes operations result
minimize_sequence-IsReduced_example = minimize_sequence-IsReduced crashes operations
