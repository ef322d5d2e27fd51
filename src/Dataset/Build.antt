-- ===== src/Dataset/Build.antt =====
-- `build_dataset` of src/osbench/dataset.py. The digests of the corpus, of the file and of the
-- cases are functions of what they are taken of.
use os_bench.Common.{ℕ, String, Bool, not, List, [], ◌∷◌, some, Dict, length}
use os_bench.Common.Items.{sorted_items}
use os_bench.Common.Result.{Result, ok, value_error, raise_if, ◌>>◌, ◌>>=◌}
use os_bench.Generators.{Template, GeneratedCase}
use os_bench.Reference.Calibrate.{increment}
use os_bench.Dataset.{Row, DatasetFile, DatasetManifest}
use os_bench.Dataset.Generate.{Library, generate_cases}

pub record Digests : Type 0 where
  pub corpus : List Template → String
  pub file : List GeneratedCase → String
  pub cases : List GeneratedCase → String

-- what `validate_contracts` reports
pub record CorpusReport : Type 0 where
  pub valid : Bool
  pub contracts : List Template

pub record BuiltManifest : Type 0 where
  pub profile : String
  pub seed : ℕ
  pub cases_per_contract : ℕ
  pub contract_count : ℕ
  pub case_count : ℕ
  pub contract_corpus_sha256 : String
  pub cases_sha256 : String
  pub dataset_sha256 : String
  pub family_counts : Dict ℕ

-- the two files
pub record Built : Type 0 where
  pub cases : List GeneratedCase
  pub manifest : BuiltManifest

-- `Counter(c["family"] for c in cases)`, from counts so far
abbrev pub count_families : List GeneratedCase → Dict ℕ → Dict ℕ
count_families [] counts = counts
count_families (c ∷ cs) counts = count_families cs (increment c.fields.family counts)

-- the keys of a case
abbrev pub case_members : List String
case_members =
    "schema_version" ∷ "benchmark_version" ∷ "contract" ∷ "domain" ∷ "level" ∷ "family"
    ∷ "case_family" ∷ "difficulty" ∷ "seed" ∷ "index" ∷ "profile" ∷ "prerequisites" ∷ "setup"
    ∷ "stimulus" ∷ "expected" ∷ "resource_limits" ∷ "timeout_seconds" ∷ "cleanup" ∷ "generator"
    ∷ "transport" ∷ "provenance" ∷ "case_id" ∷ []

-- the line of a case, as `validate_dataset` reads it
abbrev pub row_of : GeneratedCase → Row
row_of c = record {
  members = case_members;
  case_id = some c.case_id;
  contract = some c.fields.contract;
}

abbrev pub rows_of : List GeneratedCase → List Row
rows_of [] = []
rows_of (c ∷ cs) = row_of c ∷ rows_of cs

-- the files, as `validate_dataset` reads them
abbrev pub written_file : Digests → Built → DatasetFile
written_file digests built = record {
  rows = rows_of built.cases;
  sha256 = digests.file built.cases;
}

abbrev pub written_manifest : Built → DatasetManifest
written_manifest built = record {
  case_count = some built.manifest.case_count;
  cases_sha256 = some built.manifest.cases_sha256;
}

module _ (library : Library) (digests : Digests) (profile : String) (seed : ℕ) where
  abbrev pub manifest_of : List Template → ℕ → List GeneratedCase → BuiltManifest
  manifest_of contracts cases_per_contract cases = record {
    profile = profile;
    seed = seed;
    cases_per_contract = cases_per_contract;
    contract_count = length contracts;
    case_count = length cases;
    contract_corpus_sha256 = digests.corpus contracts;
    cases_sha256 = digests.file cases;
    dataset_sha256 = digests.cases cases;
    family_counts = sorted_items (count_families cases []);
  }

  unfoldable pub build_dataset : List Template → CorpusReport → ℕ → Result Built
  build_dataset loaded report cases_per_contract =
      raise_if (not report.valid) (value_error "invalid Contract corpus")
      >> (generate_cases library profile seed loaded report.contracts cases_per_contract
          >>= λ cases. ok (record {
            cases = cases;
            manifest = manifest_of report.contracts cases_per_contract cases;
          }))
