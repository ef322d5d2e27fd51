-- ===== src/Payload.antt =====
-- src/osbench/payload.py: the staged tree of the guest's payload, its manifest and its validation.
pub mod RoundTrip
use os_bench.Common.{
  ℕ, suc, String, Bool, true, false, not, ◌||◌, List, [], ◌∷◌, ◌++◌, ◌==◌, elem, Option, none, some,
  length, if◌then◌else◌,
}
use os_bench.Utilities.{TreeFile, Paths, sha256_tree}

-- What is there to be copied, each file as it stands below the staging directory: three of the
-- guest's files, three trees of artifacts, and two of sources, which must be there.
pub record PayloadSources : Type 0 where
  pub agent : Option TreeFile
  pub inventory : Option TreeFile
  pub service : Option TreeFile
  pub probes : Option (List TreeFile)
  pub workloads : Option (List TreeFile)
  pub packages : Option (List TreeFile)
  pub source_probes : List TreeFile
  pub source_workloads : List TreeFile

pub record PayloadManifest : Type 0 where
  pub tree_sha256 : String
  pub files : ℕ
  pub directories : ℕ

-- the staging directory, with the manifest
pub record Staged : Type 0 where
  pub files : List TreeFile
  pub manifest : PayloadManifest

pub data PayloadIssue : Type 0 where
  missing : String → PayloadIssue
  digest_mismatch : PayloadIssue

abbrev pub copied : Option TreeFile → List TreeFile
copied none = []
copied (some f) = f ∷ []

abbrev pub copied_tree : Option (List TreeFile) → List TreeFile
copied_tree none = []
copied_tree (some fs) = fs

unfoldable pub staged_files : PayloadSources → List TreeFile
staged_files s =
    copied s.agent
    ++ (copied s.inventory
        ++ (copied s.service
            ++ (copied_tree s.probes
                ++ (copied_tree s.workloads
                    ++ (copied_tree s.packages ++ (s.source_probes ++ s.source_workloads))))))

abbrev pub names_of : List TreeFile → List String
names_of [] = []
names_of (f ∷ fs) = f.relative ∷ names_of fs

abbrev pub required_files : List String
required_files =
    "agent/osbench_agent.py" ∷ "agent/osbench-inventory.sh" ∷ "source/probes/build.sh"
    ∷ "source/workloads/build.sh" ∷ "manifest.json" ∷ []

abbrev pub missing_files : List String → List String → List PayloadIssue
missing_files names [] = []
missing_files names (r ∷ rs) =
    let rest = missing_files names rs in if elem r names then rest else missing r ∷ rest

abbrev pub same_digest : Option String → String → Bool
same_digest none digest = false
same_digest (some d) digest = d == digest

module _ (library : Paths) where
  -- `_tree_hash`
  abbrev pub tree_hash : List TreeFile → String
  tree_hash files = sha256_tree library ("manifest.json" ∷ []) (some files)

  -- `manifest_file` is the manifest as a file of the tree; it is written after the digest is taken
  unfoldable pub stage_payload : PayloadSources → ℕ → TreeFile → Staged
  stage_payload s directories manifest_file =
      let files = staged_files s in
      record {
        files = manifest_file ∷ files;
        manifest = record {
          tree_sha256 = tree_hash files;
          files = length files;
          directories = directories;
        };
      }

  -- `document` is the digest that the manifest states, where it is read
  unfoldable pub validate_payload_tree : List TreeFile → Option String → List PayloadIssue
  validate_payload_tree files document =
      missing_files (names_of files) required_files
      ++ (if elem "manifest.json" (names_of files)
          then (if same_digest document (tree_hash files) then [] else digest_mismatch ∷ [])
          else [])
