-- ===== src/Reference/Documents.antt =====
-- The documents and the files that src/osbench/reference.py reads.
use Prim.Native.String.{count as text_length}
use os_bench.Common.{
  ℕ, String, ◌≡◌, refl, ◌⊎◌, inl, inr, Bool, true, false, not, List, [], ◌∷◌, ◌==◌, Option, none,
  some, Dict, lookup, nat_eq, all,
}

-- A member of a JSON object, as `.get` gives it; `other` is a value of another kind, with its
-- truth.
pub data Field : Type 0 where
  absent : Field
  text : String → Field
  number : ℕ → Field
  names : List String → Field
  table : Dict String → Field
  other : Bool → Field

-- the truth of a value
abbrev pub is_set : Field → Bool
is_set absent = false
is_set (text s) = not (s == "")
is_set (number n) = not (nat_eq n 0)
is_set (names []) = false
is_set (names (s ∷ ss)) = true
is_set (table []) = false
is_set (table (e ∷ es)) = true
is_set (other truth) = truth

-- `value == constant` for a text
abbrev pub is_text : String → Field → Bool
is_text constant absent = false
is_text constant (text s) = s == constant
is_text constant (number n) = false
is_text constant (names ss) = false
is_text constant (table es) = false
is_text constant (other truth) = false

-- `value == digest`, where the digest may be `None`
abbrev pub matches : Field → Option String → Bool
matches absent none = true
matches absent (some digest) = false
matches (text s) none = false
matches (text s) (some digest) = s == digest
matches (number n) digest = false
matches (names ss) digest = false
matches (table es) digest = false
matches (other truth) digest = false

-- `isinstance(value, str) and value`
abbrev pub is_nonempty_text : Field → Bool
is_nonempty_text absent = false
is_nonempty_text (text s) = not (s == "")
is_nonempty_text (number n) = false
is_nonempty_text (names ss) = false
is_nonempty_text (table es) = false
is_nonempty_text (other truth) = false

-- `isinstance(value, str) and len(value) == 64`
abbrev pub is_digest : Field → Bool
is_digest absent = false
is_digest (text s) = nat_eq (text_length s) 64
is_digest (number n) = false
is_digest (names ss) = false
is_digest (table es) = false
is_digest (other truth) = false

-- `fields.get(name)`
abbrev pub get : String → Dict Field → Field
get name fields = elim (lookup name fields) [ none ↦ absent | some value ↦ value ]

-- what `read_json` gives for a file that is there
pub data Read (Document : Type 0) : Type 0 where
  invalid_json : Read Document
  invalid_document : Read Document
  mapping : Document → Read Document

pub Read-cases :
    {Document : Type 0} (r : Read Document)
    → ((d : Document) × (r ≡ mapping d)) ⊎ ((r ≡ invalid_json) ⊎ (r ≡ invalid_document))
Read-cases invalid_json = inr (inl refl)
Read-cases invalid_document = inr (inr refl)
Read-cases (mapping d) = inl (d, refl)

-- `outcomes` is there when it is a list
pub record Calibration : Type 0 where
  pub schema_version : Field
  pub benchmark_version : Field
  pub reference_id : Field
  pub profile : Field
  pub contract : Field
  pub outcomes : Option (List Field)
  pub reference_image_sha256 : Field
  pub payload_sha256 : Field
  pub trial_count : Field

-- `isinstance(outcomes, list) and bool(outcomes) and all(…)`
abbrev pub has_outcomes : Option (List Field) → Bool
has_outcomes none = false
has_outcomes (some []) = false
has_outcomes (some (o ∷ os)) = all is_nonempty_text (o ∷ os)

-- `resolved` is `resolved_from_installed_system` when it is a mapping
pub record Realized (Value : Type 0) : Type 0 where
  pub benchmark_version : Field
  pub reference_id : Field
  pub status : Field
  pub section : String → Value
  pub resolved : Option (Dict Field)

-- reference/lock.json
pub record Lock (Value : Type 0) : Type 0 where
  pub benchmark_version : Field
  pub reference_id : Field
  pub source_size : ℕ
  pub source_sha256 : String
  pub section : String → Value

pub record File : Type 0 where
  pub size_bytes : ℕ
  pub sha256 : String

-- `artifact_paths`
pub data Artifact : Type 0 where
  source_iso payload_iso reference_image inventory_manifest rootfs_tar : Artifact
  oci_archive calibration realized_lock : Artifact

-- What a preflight looks at: the files, the two documents in them, the lock, and the host.
pub record Workspace (Value : Type 0) : Type 0 where
  pub file : Artifact → Option File
  pub calibration_read : Read Calibration
  pub realized_read : Read (Realized Value)
  pub lock : Lock Value
  pub source_lock_valid : Bool
  pub profile : String
  pub tool : String → Bool
  pub keyring : Bool
  pub firmware_code : Bool
  pub firmware_vars : Bool
