-- ===== src/Samples/Corpus.antt =====
-- Three Contracts: `b` needs `a`, and `c` needs both.
use os_bench.Common.{String, List, [], ◌∷◌, Dict}
use os_bench.Contracts.Model.{Contract}
use os_bench.Contracts.Validate.{FileRead, mapping}

abbrev pub contract : String → List String → Contract
contract id prerequisites = record {
  id = id;
  title = "title";
  level = "L1";
  domain = "files";
  transport = "probe";
  prerequisites = prerequisites;
  orthogonal_with = [];
  normalization = "none" ∷ [];
  observables = "stdout" ∷ [];
  workloads = [];
  equivalence = "exact";
}

abbrev pub a_contract : Contract
a_contract = contract "a" []

abbrev pub b_contract : Contract
b_contract = contract "b" ("a" ∷ [])

abbrev pub c_contract : Contract
c_contract = contract "c" ("b" ∷ "a" ∷ [])

abbrev pub corpus : List Contract
corpus = a_contract ∷ b_contract ∷ c_contract ∷ []

abbrev pub by_id : Dict Contract
by_id = ("a", a_contract) ∷ ("b", b_contract) ∷ ("c", c_contract) ∷ []

abbrev pub corpus_files : List (String × FileRead)
corpus_files =
    ("a.yaml", mapping [] a_contract)
    ∷ ("b.yaml", mapping [] b_contract)
    ∷ ("c.yaml", mapping [] c_contract)
    ∷ []

-- two Contracts that need each other
abbrev pub looped : List Contract
looped = contract "x" ("y" ∷ []) ∷ contract "y" ("x" ∷ []) ∷ []
