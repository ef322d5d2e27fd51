-- ===== src/Reference/Calibrate/Accepted.antt =====
-- A calibration document, read back by `preflight_reference`.
use Prim.Native.String.{count as text_length}
use os_bench.Common.{
  ℕ, ◌≤◌, String, ◌≡◌, refl, sym, ap, ◌∙◌, Bool, true, false, List, [], ◌∷◌, eq_iff, eq_refl, elem,
  all, length, some, arith,
}
use os_bench.Common.Int.{ℤ}
use os_bench.Common.Result.{ok}
use os_bench.Reference.Documents.{
  text, is_nonempty_text, has_outcomes, matches, Artifact, File, mapping, Workspace, calibration,
  reference_image, payload_iso,
}
use os_bench.Reference.Preflight.{
  calibration_metadata, judge_calibration, calibration_status, present, digest,
}
use os_bench.Reference.Calibrate.{
  Laboratory, TrialRecord, CalibrationDocument, as_calibration, as_fields, calibration_document,
  calibrate_unsynced_outcomes, contract_id, trials_of,
}
use os_bench.Reference.Calibrate.Counter.{outcomes_of}
use os_bench.Reference.Calibrate.Counted.{calibrate-Calibrated, calibrate_unsynced_outcomes-counts}

all-as_fields : (os : List String) → elem "" os ≡ false → all is_nonempty_text (as_fields os) ≡ true
all-as_fields [] h = refl
all-as_fields (o ∷ os) h = ground (arith, all-as_fields os, eq_iff o "", eq_iff "" o)

has_outcomes-as_fields :
    (os : List String) (k : String)
    → elem k os ≡ true
    → elem "" os ≡ false
    → has_outcomes (some (as_fields os)) ≡ true
has_outcomes-as_fields [] k some_there nonempty = absurd (cc some_there)
has_outcomes-as_fields (o ∷ os) k some_there nonempty = all-as_fields (o ∷ os) nonempty

first_outcome :
    (rs : List TrialRecord) (n : ℕ)
    → length rs ≡ n
    → 2 ≤ n
    → (k : String) × (elem k (outcomes_of rs) ≡ true)
first_outcome [] n e h = absurd (omega (arith, e, h))
first_outcome (r ∷ rs) n e h = (r.outcome, ground (arith, eq_refl r.outcome))

module _ {Value : Type 0} (same : Value → Value → Bool) (w : Workspace Value) where
  metadata_accepts :
      (d : CalibrationDocument)
      → d.contract ≡ contract_id
      → w.profile ≡ d.profile
      → has_outcomes (some (as_fields d.outcomes)) ≡ true
      → text_length d.reference_image_sha256 ≡ 64
      → text_length d.payload_sha256 ≡ 64
      → calibration_metadata same w true (as_calibration d) ≡ true
  unfolding calibration_metadata
  metadata_accepts d under by outcomes image payload =
      rw (under, by, outcomes, image, payload) (ground (arith, eq_refl d.profile))

  matches-same :
      (a : Artifact) (sha : String) (f : File)
      → w.file a ≡ some f
      → sha ≡ f.sha256
      → matches (text sha) (digest same w true a) ≡ true
  matches-same a sha f there equal = rw (there, equal, digest) (eq_refl f.sha256)

  judge_accepts :
      (d : CalibrationDocument) (image payload : File)
      → calibration_metadata same w true (as_calibration d) ≡ true
      → w.file reference_image ≡ some image
      → w.file payload_iso ≡ some payload
      → d.reference_image_sha256 ≡ image.sha256
      → d.payload_sha256 ≡ payload.sha256
      → judge_calibration same w true (as_calibration d)
        ≡ record { ready = true; reason = "ready"; binding_verified = some true }
  unfolding judge_calibration
  judge_accepts d image payload metadata image_there payload_there same_image same_payload =
      let first =
        matches-same reference_image d.reference_image_sha256 image image_there same_image in
      let second = matches-same payload_iso d.payload_sha256 payload payload_there same_payload in
      rw (metadata, first, second, image_there, payload_there, judge_calibration) refl

  calibration_status-mapping :
      (d : CalibrationDocument)
      → present same w true calibration ≡ true
      → w.calibration_read ≡ mapping (as_calibration d)
      → calibration_status same w true ≡ judge_calibration same w true (as_calibration d)
  unfolding calibration_status
  calibration_status-mapping d here found = rw (here, found, calibration_status) refl

  -- A calibration that returned, of the image and the payload that are still there, by
  -- the profile of the preflight, is accepted by a preflight that verifies the digests: its
  -- status is ready and bound. It wants digests of 64 characters and no empty outcome class.
  pub calibrate_unsynced_outcomes-preflight :
      (lab : Laboratory) (trials : ℤ) (seed : ℕ) (d : CalibrationDocument)
      → calibrate_unsynced_outcomes lab trials w.profile seed ≡ ok d
      → elem "" d.outcomes ≡ false
      → ((f : File) → lab.image ≡ some f → text_length f.sha256 ≡ 64)
      → ((f : File) → lab.payload ≡ some f → text_length f.sha256 ≡ 64)
      → w.file reference_image ≡ lab.image
      → w.file payload_iso ≡ lab.payload
      → present same w true calibration ≡ true
      → w.calibration_read ≡ mapping (as_calibration d)
      → calibration_status same w true
        ≡ record { ready = true; reason = "ready"; binding_verified = some true }
  unfolding calibration_document
  calibrate_unsynced_outcomes-preflight lab trials seed d returned nonempty image_size payload_size
        same_image same_payload here found =
      let c = calibrate-Calibrated lab trials w.profile seed d returned in
      let (made, enough, counted, seen, ordered, distinct) =
        calibrate_unsynced_outcomes-counts lab trials w.profile seed d returned in
      let (k, came_up) = first_outcome d.trials (trials_of trials) made enough in
      let outcomes = has_outcomes-as_fields d.outcomes k (seen k ∙ came_up) nonempty in
      let image_sha : d.reference_image_sha256 ≡ c.image.sha256 =
        ap (λ (x : CalibrationDocument). x.reference_image_sha256) c.document in
      let payload_sha : d.payload_sha256 ≡ c.payload.sha256 =
        ap (λ (x : CalibrationDocument). x.payload_sha256) c.document in
      let metadata =
        metadata_accepts d (ap (λ (x : CalibrationDocument). x.contract) c.document)
          (sym (ap (λ (x : CalibrationDocument). x.profile) c.document)) outcomes
          (ap text_length image_sha ∙ image_size c.image c.image_found)
          (ap text_length payload_sha ∙ payload_size c.payload c.payload_found) in
      calibration_status-mapping d here found
      ∙ judge_accepts d c.image c.payload metadata (same_image ∙ c.image_found)
          (same_payload ∙ c.payload_found) image_sha payload_sha
