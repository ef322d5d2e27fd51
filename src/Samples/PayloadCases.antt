-- ===== src/Samples/PayloadCases.antt =====
-- The theorems on src/osbench/util.py and src/osbench/payload.py at trees of a few files.
use os_bench.Common.{
  ℕ, String, ◌≡◌, refl, ◌⊎◌, ◌↔◌, true, false, List, [], ◌∷◌, ◌==◌, all, elem, none, some,
  if◌then◌else◌,
}
use os_bench.Common.Result.{ok}
use os_bench.Utilities.{
  TreeFile, Paths, Files, Failures, set_file, atomic_write, jsonl_iter, blank, object,
}
use os_bench.Utilities.Streams.{entries, tree_stream-entries}
use os_bench.Utilities.Writes.{atomic_write_all_or_nothing, Undone}
use os_bench.Dataset.Generate.{repeat}
use os_bench.Payload.{PayloadSources, staged_files, names_of, stage_payload, validate_payload_tree}
use os_bench.Payload.RoundTrip.{required_sources, stage_payload-validate_payload_tree}

abbrev library : Paths
library = record {
  starts_with = λ s prefix. false;
  stripped = λ s. s;
  path_leb = λ a b. true;
  utf8 = λ s. if s == "a" then 97 ∷ [] else 98 ∷ [];
  sha256 = λ bs. "d";
}

abbrev file : String → TreeFile
file name = record { relative = name; parts = name ∷ []; suffix = ""; digest = repeat 32 7 }

abbrev tree : List TreeFile
tree = file "a" ∷ file "b" ∷ []

tree_stream-entries_example : entries library tree ≡ entries library tree
tree_stream-entries_example = tree_stream-entries library tree tree refl refl refl

abbrev failures : Failures
failures = record { write = none; sync = false; replace = true; unlink = true }

abbrev nothing_there : Files
nothing_there p = none

atomic_write_all_or_nothing_example :
    let wrote = atomic_write failures "lock.json" "lock.json.x" "{}" nothing_there in
    ((wrote.outcome ≡ ok tt)
      × ((p : String) → wrote.files p ≡ set_file "lock.json" (some "{}") nothing_there p))
    ⊎ Undone failures "lock.json.x" nothing_there wrote
atomic_write_all_or_nothing_example =
    atomic_write_all_or_nothing failures "lock.json" "lock.json.x" "{}" nothing_there refl refl

-- blank lines are passed over
jsonl_iter-blank : jsonl_iter {Value = ℕ} 0 (object 1 ∷ blank ∷ object 2 ∷ []) ≡ ok (1 ∷ 2 ∷ [])
unfolding jsonl_iter
jsonl_iter-blank = refl

abbrev sources : PayloadSources
sources = record {
  agent = some (file "agent/osbench_agent.py");
  inventory = none;
  service = none;
  probes = none;
  workloads = some (file "workloads/run" ∷ []);
  packages = none;
  source_probes = file "source/probes/build.sh" ∷ [];
  source_workloads = file "source/workloads/build.sh" ∷ [];
}

stage_payload-validate_payload_tree_example :
    let staged = stage_payload library sources 7 (file "manifest.json") in
    (validate_payload_tree library staged.files (some staged.manifest.tree_sha256) ≡ [])
    ↔ (all (λ r. elem r (names_of (staged_files sources))) required_sources ≡ true)
stage_payload-validate_payload_tree_example =
    stage_payload-validate_payload_tree library refl sources 7 (file "manifest.json") refl
