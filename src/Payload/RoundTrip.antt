-- ===== src/Payload/RoundTrip.antt =====
-- `validate_payload_tree` of what `stage_payload` (src/osbench/payload.py) staged.
use mathlib.Core.List.{append-nil}
use os_bench.Common.{
  ℕ, String, ◌≡◌, refl, ap, ◌↔◌, Bool, true, false, not, ◌&&◌, ◌||◌, List, [], ◌∷◌, eq_refl, elem,
  all, some, Bool-cases, inl, inr, arith,
}
use os_bench.Utilities.{TreeFile, Paths, sha256_tree, tree_stream, is_hashed}
use os_bench.Utilities.Streams.{hashed_files-skip}
use os_bench.Payload.{
  PayloadSources, staged_files, names_of, required_files, missing_files, tree_hash, stage_payload,
  validate_payload_tree,
}

missing_files-nil :
    (names rs : List String) → (missing_files names rs ≡ []) ↔ (all (λ r. elem r names) rs ≡ true)
missing_files-nil names [] = (λ h. refl, λ h. refl)
missing_files-nil names (r ∷ rs) = elim (Bool-cases (elem r names)) [
  | inl there ↦ rw (there) (missing_files-nil names rs)
  | inr gone ↦ rw (gone) (λ h. absurd (cc h), λ h. absurd (cc h))
]

and_false : (b : Bool) → (b && false) ≡ false
and_false b = ground arith

-- the required files but the manifest
abbrev pub required_sources : List String
required_sources =
    "agent/osbench_agent.py" ∷ "agent/osbench-inventory.sh" ∷ "source/probes/build.sh"
    ∷ "source/workloads/build.sh" ∷ []

module _ (library : Paths) (whole : library.stripped "manifest.json" ≡ "manifest.json") where
  unhashed :
      (f : TreeFile)
      → f.relative ≡ "manifest.json"
      → is_hashed library ("manifest.json" ∷ []) f ≡ false
  unhashed f name =
      rw (name, whole)
        (and_false (not (elem "__pycache__" f.parts || elem f.suffix (".pyc" ∷ ".pyo" ∷ []))))

  same_hash :
      (f : TreeFile) (fs : List TreeFile)
      → f.relative ≡ "manifest.json"
      → tree_hash library (f ∷ fs) ≡ tree_hash library fs
  unfolding sha256_tree
  same_hash f fs name =
      ap (λ hashed. library.sha256 (tree_stream library hashed))
        (hashed_files-skip library ("manifest.json" ∷ []) f fs (unhashed f name))

  -- A staged payload validates exactly if the agent, the inventory script and the two build
  -- scripts were there to be copied: the digest that the manifest states is that of the tree
  -- although the manifest was written into the tree after the digest was taken. `rstrip`
  -- must leave the manifest's name as it is.
  pub stage_payload-validate_payload_tree :
      (s : PayloadSources) (directories : ℕ) (manifest_file : TreeFile)
      → manifest_file.relative ≡ "manifest.json"
      → let staged = stage_payload library s directories manifest_file in
        (validate_payload_tree library staged.files (some staged.manifest.tree_sha256) ≡ [])
        ↔ (all (λ r. elem r (names_of (staged_files s))) required_sources ≡ true)
  unfolding stage_payload validate_payload_tree
  stage_payload-validate_payload_tree s directories manifest_file name =
      rw
        (
          same_hash manifest_file (staged_files s) name,
          name,
          eq_refl (tree_hash library (staged_files s)),
          append-nil (missing_files ("manifest.json" ∷ names_of (staged_files s)) required_files),
        )
        (missing_files-nil ("manifest.json" ∷ names_of (staged_files s)) required_files)
