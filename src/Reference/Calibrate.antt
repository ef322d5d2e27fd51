-- ===== src/Reference/Calibrate.antt =====
-- `calibrate_unsynced_outcomes` of src/osbench/reference.py.
pub mod Counter
pub mod Counted
pub mod Accepted
use os_bench.Common.{
  ℕ, zero, suc, ◌+◌, String, Bool, true, false, not, List, [], ◌∷◌, ◌++◌, ◌==◌, Option, none, some,
  Dict, keys, all, map, ltb, if◌then◌else◌,
}
use os_bench.Common.Int.{ℤ, pos, negsuc}
use os_bench.Common.Items.{sorted_items}
use os_bench.Common.Result.{
  Result, ok, err, Error, value_error, key_error, file_not_found, runtime_error, ◌>>=◌, ◌>>◌,
  raise_if,
}
use os_bench.Common.Sort.{sorted}
use os_bench.Common.Text.{concat}
use os_bench.Reference.Documents.{
  Field, absent, text, number, names, table, other, File, Calibration,
}

-- what is used of a generated case
pub record TrialCase : Type 0 where
  pub case_id : String
  pub seed : ℕ

-- What is used of an observation: its status, and of its `verify` part the outcome class and
-- which members are `True`.
pub record TrialObservation : Type 0 where
  pub status : Option String
  pub stderr : String
  pub outcome_class : Field
  pub is_true : String → Bool

pub record TrialRecord : Type 0 where
  pub trial : ℕ
  pub case_id : String
  pub seed : ℕ
  pub outcome : String

-- `counts` and `trial_records`
pub record Tally : Type 0 where
  pub counts : Dict ℕ
  pub trial_records : List TrialRecord

pub record CalibrationDocument : Type 0 where
  pub contract : String
  pub profile : String
  pub trial_count : ℕ
  pub seed : ℕ
  pub reference_image_sha256 : String
  pub payload_sha256 : String
  pub outcomes : List String
  pub counts : Dict ℕ
  pub trials : List TrialRecord

-- The surroundings: the two files, whether the corpus has the Contract, and the target with the
-- generator of its cases. `padded` is the format `03d`.
pub record Laboratory : Type 0 where
  pub is_profile_name : String → Bool
  pub image : Option File
  pub payload : Option File
  pub has_contract : Bool
  pub generate : ℕ → Result TrialCase
  pub padded : ℕ → String
  pub execute : ℕ → String → Result TrialObservation

abbrev pub contract_id : String
contract_id = "persistence.crash.unsynced_bounds"

abbrev pub required_invariants : List String
required_invariants =
    "durable_sentinel_intact" ∷ "no_cross_file_corruption" ∷ "plausible_unsynced_outcome"
    ∷ "block_granularity_valid" ∷ []

abbrev pub status_ok : Option String → Bool
status_ok none = false
status_ok (some status) = status == "ok"

-- `outcome`, when it is a `str`
abbrev pub outcome_text : Field → Option String
outcome_text absent = none
outcome_text (text s) = some s
outcome_text (number n) = none
outcome_text (names ss) = none
outcome_text (table es) = none
outcome_text (other truth) = none

-- `counts[key] += 1` on a `Counter`
abbrev pub increment : String → Dict ℕ → Dict ℕ
increment k [] = (k, 1) ∷ []
increment k ((j, n) ∷ m) = if k == j then (j, n + 1) ∷ m else (j, n) ∷ increment k m

-- what an observation of the trial comes to
unfoldable pub trial_outcome : TrialObservation → Result String
trial_outcome o =
    raise_if (not (status_ok o.status)) (runtime_error "unsynced calibration trial failed")
    >> elim (outcome_text o.outcome_class) [
      | none ↦ err (runtime_error "unsynced calibration trial returned no outcome class")
      | some outcome ↦
          raise_if (not (all o.is_true required_invariants))
            (runtime_error "unsynced calibration trial violated invariants")
          >> ok outcome
    ]

unfoldable pub calibration_document : String → ℕ → ℕ → File → File → Tally → CalibrationDocument
calibration_document profile trials seed image payload t = record {
  contract = contract_id;
  profile = profile;
  trial_count = trials;
  seed = seed;
  reference_image_sha256 = image.sha256;
  payload_sha256 = payload.sha256;
  outcomes = sorted (keys t.counts);
  counts = sorted_items t.counts;
  trials = t.trial_records;
}

abbrev pub trials_of : ℤ → ℕ
trials_of (pos n) = n
trials_of (negsuc n) = 0

-- `path.is_file()`, or the exception
abbrev pub the_file : Option File → String → Result File
the_file none name = err (file_not_found name)
the_file (some f) name = ok f

module _ (lab : Laboratory) where
  abbrev pub trial_id : ℕ → TrialCase → String
  trial_id index c = concat (c.case_id ∷ ":calibration-" ∷ lab.padded index ∷ [])

  -- one round of the loop
  unfoldable pub run_trial : ℕ → ℕ → Tally → Result Tally
  unfolding trial_outcome
  run_trial seed index t = lab.generate (seed + index) >>= λ c.
      lab.execute index (trial_id index c) >>= λ o. trial_outcome o >>= λ outcome. ok (record {
        counts = increment outcome t.counts;
        trial_records =
            t.trial_records
            ++ record {
              trial = index;
              case_id = trial_id index c;
              seed = c.seed;
              outcome = outcome;
            }
              ∷ [];
      })

  -- `for index in range(trials)`; `left` rounds are to come
  unfoldable pub run_trials : ℕ → ℕ → ℕ → Tally → Result Tally
  unfolding run_trial
  run_trials seed index zero t = ok t
  run_trials seed index (suc left) t =
      run_trial seed index t >>= λ u. run_trials seed (suc index) left u

  unfoldable pub calibrate_unsynced_outcomes : ℤ → String → ℕ → Result CalibrationDocument
  unfolding run_trials calibration_document
  calibrate_unsynced_outcomes trials profile seed =
      raise_if (ltb (trials_of trials) 2)
        (value_error "unsynced calibration requires at least two trials")
      >> (raise_if (not (lab.is_profile_name profile)) (value_error "invalid QEMU profile name")
          >> (the_file lab.image "image" >>= λ image. the_file lab.payload "payload" >>= λ payload.
              (raise_if (not lab.has_contract) (key_error contract_id)
                >> (run_trials seed 0 (trials_of trials)
                      (record { counts = []; trial_records = [] })
                    >>= λ t.
                        ok
                          (calibration_document profile (trials_of trials) seed image payload t)))))

-- the document as it is read back from the file
abbrev pub as_fields : List String → List Field
as_fields [] = []
as_fields (o ∷ os) = text o ∷ as_fields os

abbrev pub as_calibration : CalibrationDocument → Calibration
as_calibration d = record {
  schema_version = text "osbench.accepted_outcomes.v1";
  benchmark_version = text "0.1.0";
  reference_id = text "debian-13.6-amd64-osbench-v0.1";
  profile = text d.profile;
  contract = text d.contract;
  outcomes = some (as_fields d.outcomes);
  reference_image_sha256 = text d.reference_image_sha256;
  payload_sha256 = text d.payload_sha256;
  trial_count = number d.trial_count;
}
