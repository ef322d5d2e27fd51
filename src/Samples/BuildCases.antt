-- ===== src/Samples/BuildCases.antt =====
-- The theorems on the generated dataset of src/osbench/dataset.py at a corpus of two Contracts
-- and at one of 266.
use os_bench.Common.{
  ℕ, ◌+◌, ◌*◌, ◌%◌, ◌<◌, String, ◌≡◌, refl, ◌↔◌, true, List, [], ◌∷◌, length, none, some, get_or,
  lookup, count, arith,
}
use os_bench.Common.Sort.{sort_by}
use os_bench.Common.Result.{ok}
use os_bench.Contracts.Model.{Contract}
use os_bench.Generators.{Template, Rng, GeneratedCase}
use os_bench.Dataset.{validate_dataset}
use os_bench.Dataset.Valid.{distinct_ids}
use os_bench.Dataset.Generate.{
  Library, id_leb, family_schedule, generate_cases, repeat, public_family_counts,
}
use os_bench.Dataset.Schedule.{Shuffles}
use os_bench.Dataset.Generated.{jobs, IsMade, generate_cases-IsMade}
use os_bench.Dataset.Build.{
  Digests, CorpusReport, Built, build_dataset, written_manifest, written_file, rows_of,
}
use os_bench.Dataset.RoundTrip.{
  template_ids, families_of, build_dataset-validate_dataset, generate_cases-public,
}
use os_bench.Samples.Corpus.{a_contract, b_contract}

abbrev template : Contract → Template
template c = record {
  contract = c;
  operation = "stat";
  fault_injection = [];
  case_seconds = none;
  cleanup_invariants = [];
  implementation = "stat";
  version = none;
  probe = some "stat";
  sources = [];
}

abbrev templates : List Template
templates = template b_contract ∷ template a_contract ∷ []

abbrev rng : Rng
rng = record {
  token = λ s. "t";
  scale_index = λ s. s % 8;
  choice = λ s faults. "none";
  arguments = λ s. [];
}

abbrev library : Library
library = record {
  rng = rng;
  shuffle = λ s fs. fs;
  case_number = λ text. 7;
  digest = λ fields. "0123456789abcdef";
  shown = λ n. "1";
  exclusive_or = λ a b. a + b;
}

in_range : (s : ℕ) → s % 8 < 8
in_range s = ground arith

kept : Shuffles library.shuffle
kept = record { length = λ s fs. refl; count = λ s fs f. refl }

generate_cases-IsMade_example :
    let items = sort_by id_leb templates in
    (cases : List GeneratedCase) × (generate_cases library "private" 3 [] templates 2 ≡ ok cases)
    × IsMade library "private" 3
        (jobs 2 items)
        (family_schedule library "private" 3 (length items * 2))
        cases
    × (length cases ≡ 4)
generate_cases-IsMade_example =
    generate_cases-IsMade library "private" 3 in_range kept [] templates 2

abbrev digests : Digests
digests = record { corpus = λ ts. "c"; file = λ cs. "f"; cases = λ cs. "d" }

abbrev report : CorpusReport
report = record { valid = true; contracts = templates }

build_dataset-validate_dataset_example :
    (built : Built) × (build_dataset library digests "private" 3 [] report 2 ≡ ok built)
    × ((validate_dataset
            (template_ids templates)
            (some (written_manifest built))
            (some (written_file digests built))
          ≡ [])
        ↔ (distinct_ids (rows_of built.cases) ≡ true))
build_dataset-validate_dataset_example =
    build_dataset-validate_dataset library "private" 3 in_range kept digests [] report 2 refl

generate_cases-public_example :
    (cases : List GeneratedCase) × (generate_cases library "public" 1
        (repeat 266 (template a_contract))
        []
        10
      ≡ ok cases)
    × ((f : String) → count f (families_of cases) ≡ get_or (lookup f public_family_counts) 0)
generate_cases-public_example =
    generate_cases-public library "public" 1 in_range kept (repeat 266 (template a_contract)) [] 10
      refl refl
