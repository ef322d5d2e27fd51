-- ===== src/Generators.antt =====
-- `generic_case` of src/osbench/generators.py: a case of a Contract. Random numbers, digests and
-- Python's `str` are functions, of the seed, of the case and of the number. A timeout is a whole
-- number of seconds.
pub mod Limits
use os_bench.Common.{
  ℕ, zero, suc, ◌*◌, ◌%◌, min, max, String, Bool, not, List, [], ◌∷◌, Option, none, some, get_or,
  Dict, lookup, nat_eq,
}
use os_bench.Common.Int.{ℤ}
use os_bench.Common.Text.{concat}
use os_bench.Common.Result.{Result, ok, err, key_error, value_error, ◌>>=◌}
use os_bench.Contracts.Model.{Contract}

-- A Contract with the fields that a case is made from besides.
pub record Template : Type 0 where
  pub contract : Contract
  pub operation : String
  pub fault_injection : List String
  pub case_seconds : Option ℕ
  pub cleanup_invariants : List String
  pub implementation : String
  pub version : Option String
  pub probe : Option String
  pub sources : List String

-- what the generator of a seed draws, in this order
pub record Rng : Type 0 where
  pub token : ℕ → String
  -- `randrange(8)`
  pub scale_index : ℕ → ℕ
  pub choice : ℕ → List String → String
  pub arguments : ℕ → List ℤ

-- a case without its id
pub record CaseFields : Type 0 where
  pub contract : String
  pub domain : String
  pub level : String
  pub family : String
  pub case_family : String
  pub difficulty : String
  pub seed : ℕ
  pub index : ℕ
  pub profile : String
  pub prerequisites : List String
  pub clean_snapshot : Bool
  pub temporary_root : String
  pub operation : String
  pub token : String
  pub scale : ℕ
  pub fault : String
  pub arguments : List ℤ
  pub comparison : String
  pub observables : List String
  pub memory_mb : ℕ
  pub processes : ℕ
  pub files : ℕ
  pub timeout_seconds : ℕ
  pub cleanup : List String
  pub implementation : String
  pub version : String
  pub probe : Option String
  pub transport : String
  pub provenance : List String

pub record GeneratedCase : Type 0 where
  pub fields : CaseFields
  pub case_id : String

abbrev pub family_difficulty : Dict String
family_difficulty =
    ("primitive", "basic")
    ∷ ("boundary", "intermediate")
    ∷ ("state_transition", "intermediate")
    ∷ ("composition", "advanced")
    ∷ ("concurrency", "advanced")
    ∷ ("isolation", "advanced")
    ∷ ("failure", "advanced")
    ∷ ("persistence", "advanced")
    ∷ ("exhaustion", "advanced")
    ∷ ("workload", "macro")
    ∷ ("performance", "macro")
    ∷ []

abbrev pub scales : List ℕ
scales = 0 ∷ 1 ∷ 2 ∷ 4 ∷ 16 ∷ 64 ∷ 256 ∷ 4096 ∷ []

-- `xs[index]`
abbrev pub item_at {ℓ} : {A : Type ℓ} → ℕ → List A → Result A
item_at index [] = err (value_error "IndexError")
item_at zero (x ∷ xs) = ok x
item_at (suc index) (x ∷ xs) = item_at index xs

-- `n or default`
abbrev pub or_else : ℕ → ℕ → ℕ
or_else zero default = default
or_else (suc n) default = suc n

-- `contract.get("fault_injection") or ["none"]`
abbrev pub faults_of : List String → List String
faults_of [] = "none" ∷ []
faults_of (fault ∷ faults) = fault ∷ faults

abbrev pub difficulty_of : String → Result String
difficulty_of family = elim (lookup family family_difficulty) [
  | none ↦ err (key_error family)
  | some difficulty ↦ ok difficulty
]

module _ (rng : Rng) (digest : CaseFields → String) where
  abbrev pub case_fields : Template → ℕ → String → ℕ → String → ℕ → String → CaseFields
  case_fields t seed family index profile scale difficulty = record {
    contract = t.contract.id;
    domain = t.contract.domain;
    level = t.contract.level;
    family = family;
    case_family = family;
    difficulty = difficulty;
    seed = seed;
    index = index;
    profile = profile;
    prerequisites = t.contract.prerequisites;
    clean_snapshot = not (nat_eq (index % 4) 0);
    temporary_root = concat ("/tmp/osbench-" ∷ rng.token seed ∷ []);
    operation = t.operation;
    token = rng.token seed;
    scale = scale;
    fault = rng.choice seed (faults_of t.fault_injection);
    arguments = rng.arguments seed;
    comparison = t.contract.equivalence;
    observables = t.contract.observables;
    memory_mb = max 16 (min 512 (or_else scale 16));
    processes = max 4 (min 128 (or_else scale 4));
    files = max 8 (min 1024 (or_else scale 8 * 2));
    timeout_seconds = get_or t.case_seconds 10;
    cleanup = t.cleanup_invariants;
    implementation = t.implementation;
    version = get_or t.version "1";
    probe = t.probe;
    transport = t.contract.transport;
    provenance = t.sources;
  }

  -- `digest` is the first 16 digits of `sha256_value`
  abbrev pub with_id : CaseFields → GeneratedCase
  with_id fields = record {
    fields = fields;
    case_id = concat (fields.contract ∷ ":" ∷ digest fields ∷ []);
  }

  unfoldable pub generic_case : Template → ℕ → String → ℕ → String → Result GeneratedCase
  generic_case t seed family index profile = item_at (rng.scale_index seed) scales >>= λ scale.
      difficulty_of family >>= λ difficulty.
      ok (with_id (case_fields t seed family index profile scale difficulty))
