-- ===== src/Reference/Preflight/Calibrated.antt =====
-- What a calibration that the preflight finds ready has been held to.
use os_bench.Common.{
  String, ◌≡◌, refl, ap, Bool, true, eq_iff, some, Option-cases, Bool-cases, inl, inr, arith,
}
use os_bench.Reference.Documents.{
  Field, absent, text, number, names, table, other, is_text, matches, Read-cases, mapping,
  Calibration, File, Artifact, payload_iso, reference_image, calibration, Workspace,
}
use os_bench.Reference.Report.{bound}
use os_bench.Reference.Preflight.{
  present, digest, calibration_metadata, judge_calibration, calibration_status,
}

pub is_text_iff : (constant : String) (v : Field) → is_text constant v ≡ true → v ≡ text constant
is_text_iff constant (text s) h = ap text ((eq_iff s constant).0 h)
is_text_iff constant absent h = absurd (cc h)
is_text_iff constant (number n) h = absurd (cc h)
is_text_iff constant (names ss) h = absurd (cc h)
is_text_iff constant (table es) h = absurd (cc h)
is_text_iff constant (other truth) h = absurd (cc h)

matches_digest : (v : Field) (sha : String) → matches v (some sha) ≡ true → v ≡ text sha
matches_digest (text s) sha h = ap text ((eq_iff s sha).0 h)
matches_digest absent sha h = absurd (cc h)
matches_digest (number n) sha h = absurd (cc h)
matches_digest (names ss) sha h = absurd (cc h)
matches_digest (table es) sha h = absurd (cc h)
matches_digest (other truth) sha h = absurd (cc h)

module _ {Value : Type 0} (same : Value → Value → Bool) (w : Workspace Value) where
  -- the file is there and its digest is the value
  abbrev pub IsDigestOf : Artifact → Field → Type 0
  IsDigestOf a v = (f : File) × (w.file a ≡ some f) × (v ≡ text f.sha256)

  pub matches-IsDigestOf :
      (a : Artifact) (v : Field)
      → present same w true a ≡ true
      → matches v (digest same w true a) ≡ true
      → IsDigestOf a v
  matches-IsDigestOf a v here equal = elim (Option-cases (w.file a)) [
    | inl missing ↦ absurd (cc (rw missing at here))
    | inr (f, found) ↦ (f, found, matches_digest v f.sha256 (rw (found, digest) at equal))
  ]

  -- a calibration that is ready under verification
  pub record IsCalibrated : Type 0 where
    pub document : Calibration
    pub document_read : w.calibration_read ≡ mapping document
    pub metadata : calibration_metadata same w true document ≡ true
    pub profile : document.profile ≡ text w.profile
    pub image : IsDigestOf reference_image document.reference_image_sha256
    pub payload : IsDigestOf payload_iso document.payload_sha256

  bound-ready : (verified : Bool) (otherwise : String) → (bound verified otherwise).ready ≡ verified
  bound-ready verified otherwise = refl

  judge_calibration-ready :
      (d : Calibration)
      → (judge_calibration same w true d).ready ≡ true
      → (calibration_metadata same w true d ≡ true)
        × (present same w true reference_image ≡ true)
        × (present same w true payload_iso ≡ true)
        × (matches d.reference_image_sha256 (digest same w true reference_image) ≡ true)
        × (matches d.payload_sha256 (digest same w true payload_iso) ≡ true)
  unfolding judge_calibration
  judge_calibration-ready d h =
      (ground arith, ground arith, ground arith, ground arith, ground arith)

  metadata-profile :
      (d : Calibration) → calibration_metadata same w true d ≡ true → d.profile ≡ text w.profile
  unfolding calibration_metadata
  metadata-profile d h = is_text_iff w.profile d.profile (ground arith)

  pub calibration_status-IsCalibrated : (calibration_status same w true).ready ≡ true → IsCalibrated
  unfolding calibration_status
  calibration_status-IsCalibrated h = elim (Bool-cases (present same w true calibration)) [
    | inr missing ↦ absurd (cc (rw (missing, calibration_status) at h))
    | inl here ↦ elim (Read-cases w.calibration_read) [
      | inr (inl broken) ↦ absurd (cc (rw (here, broken, calibration_status) at h))
      | inr (inr shapeless) ↦ absurd (cc (rw (here, shapeless, calibration_status) at h))
      | inl (d, found) ↦
          let (metadata, image_here, payload_here, image, payload) =
            judge_calibration-ready d (rw (here, found, calibration_status) at h) in
          record {
            document = d;
            document_read = found;
            metadata = metadata;
            profile = metadata-profile d metadata;
            image = matches-IsDigestOf reference_image d.reference_image_sha256 image_here image;
            payload = matches-IsDigestOf payload_iso d.payload_sha256 payload_here payload;
          }
    ]
  ]
