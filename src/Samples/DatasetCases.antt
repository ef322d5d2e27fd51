-- ===== src/Samples/DatasetCases.antt =====
-- The theorem on src/osbench/dataset.py at a dataset of two lines.
use os_bench.Common.{String, ◌≡◌, ◌↔◌, true, List, [], ◌∷◌, all, Option, some}
use os_bench.Dataset.{DatasetFile, DatasetManifest, required_members, validate_dataset}
use os_bench.Dataset.Valid.{is_complete, distinct_ids, DescribesFile, validate_dataset_correct}

abbrev file : DatasetFile
file = record {
  rows =
      record { members = required_members; case_id = some "a-1"; contract = some "a" }
      ∷ record { members = required_members; case_id = some "b-1"; contract = some "b" }
      ∷ [];
  sha256 = "f";
}

abbrev known : List String
known = "a" ∷ "b" ∷ []

abbrev manifest : Option DatasetManifest
manifest = some (record { case_count = some 2; cases_sha256 = some "f" })

validate_dataset_correct_example : (validate_dataset known manifest (some file) ≡ []) ↔ (
    (found : DatasetFile) × (some file ≡ some found)
    × (all (is_complete known) found.rows ≡ true)
    × (distinct_ids found.rows ≡ true)
    × DescribesFile manifest found)
validate_dataset_correct_example = validate_dataset_correct known manifest (some file)
