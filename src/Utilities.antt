-- ===== src/Utilities.antt =====
-- src/osbench/util.py: the digest of a tree, the atomic write, the rows of a JSONL file. Python's
-- string methods, hashing and parsing are functions.
pub mod Streams
pub mod Writes
use os_bench.Common.{
  ℕ, suc, String, Bool, true, false, not, any, ◌&&◌, ◌||◌, List, [], ◌∷◌, ◌++◌, ◌==◌, elem, keep,
  Option, none, some, if◌then◌else◌,
}
use os_bench.Common.Sort.{sort_by}
use os_bench.Common.Text.{concat}
use os_bench.Common.Result.{Result, ok, err, Error, value_error, os_error, ◌>>=◌}

-- a regular file below the root, with the digest of its bytes
pub record TreeFile : Type 0 where
  pub relative : String
  pub parts : List String
  pub suffix : String
  pub digest : List ℕ

-- the functions of Python's libraries, and the order of paths
pub record Paths : Type 0 where
  pub starts_with : String → String → Bool
  -- `rstrip("/")`
  pub stripped : String → String
  pub path_leb : TreeFile → TreeFile → Bool
  pub utf8 : String → List ℕ
  pub sha256 : List ℕ → String

module _ (library : Paths) where
  abbrev pub matches : String → String → Bool
  matches relative pattern =
      relative == library.stripped pattern
      || library.starts_with relative (concat (library.stripped pattern ∷ "/" ∷ []))

  abbrev pub excluded : String → List String → Bool
  excluded relative patterns = any (λ pattern. matches relative pattern) patterns

  abbrev pub is_hashed : List String → TreeFile → Bool
  is_hashed patterns f =
      not (elem "__pycache__" f.parts || elem f.suffix (".pyc" ∷ ".pyo" ∷ []))
      && not (excluded f.relative patterns)

  -- what a file adds to the digest
  abbrev pub file_stream : TreeFile → List ℕ
  file_stream f = library.utf8 f.relative ++ 0 ∷ f.digest

  unfoldable pub tree_stream : List TreeFile → List ℕ
  tree_stream [] = []
  tree_stream (f ∷ fs) = file_stream f ++ tree_stream fs

  -- the files in the order in which they are hashed
  unfoldable pub hashed_files : List String → List TreeFile → List TreeFile
  hashed_files patterns files = keep (is_hashed patterns) (sort_by library.path_leb files)

  -- a root that is not there is the empty stream
  unfoldable pub sha256_tree : List String → Option (List TreeFile) → String
  sha256_tree patterns none = library.sha256 []
  sha256_tree patterns (some files) = library.sha256 (tree_stream (hashed_files patterns files))

-- the contents of the files, by path
abbrev pub Files : Type 0
Files = String → Option String

abbrev pub set_file : String → Option String → Files → Files
set_file path content files = λ p. if p == path then content else files p

-- what can fail in a write; a failed `write` leaves something in the temporary file
pub record Failures : Type 0 where
  pub write : Option String
  pub sync : Bool
  pub replace : Bool
  pub unlink : Bool

-- an end, with the files that it leaves
pub record Wrote : Type 0 where
  pub outcome : Result (Unit {0})
  pub files : Files

abbrev pub has_file : Option String → Bool
has_file none = false
has_file (some content) = true

-- the `finally`; where the temporary file cannot be removed, that exception leaves the function
abbrev pub remove_temporary : Failures → String → Result (Unit {0}) → Files → Wrote
remove_temporary failures temporary outcome files =
    if has_file (files temporary)
    then if failures.unlink
      then record { outcome = err (os_error "unlink"); files = files }
      else record { outcome = outcome; files = set_file temporary none files }
    else record { outcome = outcome; files = files }

-- `temporary` is the name that `mkstemp` found
unfoldable pub atomic_write : Failures → String → String → String → Files → Wrote
atomic_write failures path temporary payload files =
    let written = set_file temporary (some payload) files in
    elim failures.write [
      | some part ↦
          remove_temporary failures temporary (err (os_error "write"))
            (set_file temporary (some part) files)
      | none ↦
          if failures.sync
          then remove_temporary failures temporary (err (os_error "fsync")) written
          else if failures.replace
          then remove_temporary failures temporary (err (os_error "replace")) written
          else remove_temporary failures temporary (ok tt)
              (set_file path (some payload) (set_file temporary none written))
    ]

-- a line of a JSONL file: only space, not JSON, an object, or another value
pub data JsonLine (Value : Type 0) : Type 0 where
  blank : JsonLine Value
  invalid : JsonLine Value
  object : Value → JsonLine Value
  scalar : JsonLine Value

-- `enumerate(handle, 1)`; the row's number is in the error
unfoldable pub jsonl_iter : {Value : Type 0} → ℕ → List (JsonLine Value) → Result (List Value)
jsonl_iter done [] = ok []
jsonl_iter done (blank ∷ lines) = jsonl_iter (suc done) lines
jsonl_iter done (invalid ∷ lines) = err (value_error "JSONDecodeError")
jsonl_iter done (scalar ∷ lines) = err (value_error "JSONL row must be an object")
jsonl_iter done (object row ∷ lines) = jsonl_iter (suc done) lines >>= λ rows. ok (row ∷ rows)
