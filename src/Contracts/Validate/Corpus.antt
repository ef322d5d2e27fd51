-- ===== src/Contracts/Validate/Corpus.antt =====
-- What a sound corpus is, said without the validator.
use os_bench.Common.{
  String, ◌≡◌, Bool, true, false, not, ◌&&◌, List, [], ◌∷◌, ltb, ◌==◌, elem, nodup, length, all,
}
use os_bench.Contracts.Model.{Contract}
use os_bench.Contracts.Cycles.{cycle_nodes}
use os_bench.Contracts.Validate.{FileRead, unreadable, not_mapping, mapping, ids}

-- A file that the schema accepts.
abbrev pub accepted : FileRead → Bool
accepted (unreadable _) = false
accepted not_mapping = false
accepted (mapping [] c) = true
accepted (mapping (_ ∷ _) c) = false

abbrev pub documents : List (String × FileRead) → List Contract
documents [] = []
documents ((path, mapping [] c) ∷ rest) = c ∷ documents rest
documents ((path, mapping (e ∷ es) c) ∷ rest) = documents rest
documents ((path, unreadable x) ∷ rest) = documents rest
documents ((path, not_mapping) ∷ rest) = documents rest

-- Every reference leads to another Contract of the corpus.
abbrev pub refers : List String → String → List String → Bool
refers known identifier [] = true
refers known identifier (d ∷ ds) =
    (elem d known && not (d == identifier)) && refers known identifier ds

abbrev pub linked : List String → Contract → Bool
linked known c =
    (refers known c.id c.prerequisites && refers known c.id c.orthogonal_with)
    && not (elem "none" c.normalization && ltb 1 (length c.normalization))

pub record IsSound (files : List (String × FileRead)) : Type 0 where
  pub files_accepted : all (λ (f : String × FileRead). accepted f.1) files ≡ true
  pub distinct_ids : nodup (ids (documents files)) ≡ true
  pub links : all (linked (ids (documents files))) (documents files) ≡ true
  pub acyclic : cycle_nodes (documents files) ≡ []
