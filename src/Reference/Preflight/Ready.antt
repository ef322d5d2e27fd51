-- ===== src/Reference/Preflight/Ready.antt =====
-- What a preflight that finds everything in place has seen.
use os_bench.Reference.Preflight.Calibrated.{
  is_text_iff, IsDigestOf, matches-IsDigestOf, calibration_status-IsCalibrated,
}
use os_bench.Common.{
  ◌≡◌, refl, sym, ap, ◌∙◌, Bool, true, ◌&&◌, Option, none, some, Option-cases, Bool-cases, and-true,
  inl, inr, Dict, all, arith,
}
use os_bench.Reference.Documents.{
  Field, text, matches, get, Read-cases, mapping, Calibration, Realized, File, Artifact,
  payload_iso, reference_image, rootfs_tar, oci_archive, calibration, realized_lock, Workspace,
}
use os_bench.Reference.Report.{sections}
use os_bench.Reference.Preflight.{
  present, digest, is_none, calibration_status, has_resolved_fields, artifacts_present,
  metadata_valid, source_sections_match, is_structural, is_bound, judge_realized, realized_status,
  next_action, preflight_reference,
}

and-parts :
    (a b c d e : Bool)
    → (a && (b && (c && (d && e)))) ≡ true
    → (a ≡ true) × (b ≡ true) × (c ≡ true) × (d ≡ true) × (e ≡ true)
and-parts a b c d e h = (ground arith, ground arith, ground arith, ground arith, ground arith)

module _ {Value : Type 0} (same : Value → Value → Bool) (w : Workspace Value) where
  pub is_none-next_action :
      (verify_hashes : Bool)
      → is_none (next_action same w verify_hashes)
        ≡ (w.source_lock_valid && (realized_status same w verify_hashes).ready)
  unfolding next_action
  is_none-next_action verify_hashes = elim (Bool-cases w.source_lock_valid) [
    | inr stale ↦ rw (stale, next_action) refl
    | inl valid ↦ elim (Bool-cases (realized_status same w verify_hashes).ready) [
      | inl ready ↦ rw (valid, ready, next_action) refl
      | inr waiting ↦ rw (valid, waiting, next_action) refl
    ]
  ]

  -- What stands behind a realized lock that is ready: its document names this reference, it was
  -- made from the sections of the lock, and each of its digests is that of the file that it is
  -- about; the calibration document is of the same image, payload and profile.
  pub record IsMaterialized : Type 0 where
    pub document : Realized Value
    pub document_read : w.realized_read ≡ mapping document
    pub status : document.status ≡ text "materialized"
    pub same_sources :
        all (λ name. same (document.section name) (w.lock.section name)) sections ≡ true
    pub resolved : Dict Field
    pub resolved_read : document.resolved ≡ some resolved
    pub image : IsDigestOf same w reference_image (get "image_sha256" resolved)
    pub payload : IsDigestOf same w payload_iso (get "payload_sha256" resolved)
    pub rootfs : IsDigestOf same w rootfs_tar (get "oci_rootfs_sha256" resolved)
    pub archive : IsDigestOf same w oci_archive (get "oci_archive_sha256" resolved)
    pub accepted :
        IsDigestOf same w calibration (get "unsynced_outcome_calibration_sha256" resolved)
    pub calibrated : Calibration
    pub calibrated_read : w.calibration_read ≡ mapping calibrated
    pub same_image : calibrated.reference_image_sha256 ≡ get "image_sha256" resolved
    pub same_payload : calibrated.payload_sha256 ≡ get "payload_sha256" resolved
    pub same_profile : calibrated.profile ≡ text w.profile

  judge_realized-ready :
      (r : Realized Value)
      → (judge_realized same w true r).ready ≡ true
      → (is_structural same w true r ≡ true) × (is_bound same w true r.resolved ≡ true)
  unfolding judge_realized
  judge_realized-ready r h = elim (Bool-cases (is_structural same w true r)) [
    | inr loose ↦ absurd (cc (rw (loose, judge_realized) at h))
    | inl sound ↦ (sound, rw (sound, judge_realized) at h)
  ]

  no_fields :
      (resolved : Option (Dict Field))
      → resolved ≡ none
      → ¬ (has_resolved_fields same w true resolved ≡ true)
  unfolding has_resolved_fields
  no_fields none nothing h = cc h
  no_fields (some fields) nothing h = cc nothing

  is_structural-parts :
      (r : Realized Value)
      → is_structural same w true r ≡ true
      → (metadata_valid same w true r ≡ true)
        × (source_sections_match same w true r ≡ true)
        × (has_resolved_fields same w true r.resolved ≡ true)
        × (artifacts_present same w true ≡ true)
        × ((calibration_status same w true).ready ≡ true)
  unfolding is_structural
  is_structural-parts r h =
      and-parts (metadata_valid same w true r) (source_sections_match same w true r)
        (has_resolved_fields same w true r.resolved) (artifacts_present same w true)
        (calibration_status same w true).ready h

  is_bound-parts :
      (resolved : Dict Field)
      → is_bound same w true (some resolved) ≡ true
      → (matches (get "image_sha256" resolved) (digest same w true reference_image) ≡ true)
        × (matches (get "payload_sha256" resolved) (digest same w true payload_iso) ≡ true)
        × (matches (get "oci_rootfs_sha256" resolved) (digest same w true rootfs_tar) ≡ true)
        × (matches (get "oci_archive_sha256" resolved) (digest same w true oci_archive) ≡ true)
        × (matches
              (get "unsynced_outcome_calibration_sha256" resolved)
              (digest same w true calibration)
            ≡ true)
  unfolding is_bound
  is_bound-parts resolved h =
      and-parts (matches (get "image_sha256" resolved) (digest same w true reference_image))
        (matches (get "payload_sha256" resolved) (digest same w true payload_iso))
        (matches (get "oci_rootfs_sha256" resolved) (digest same w true rootfs_tar))
        (matches (get "oci_archive_sha256" resolved) (digest same w true oci_archive))
        (matches (get "unsynced_outcome_calibration_sha256" resolved)
          (digest same w true calibration))
        h

  artifacts_present-all :
      artifacts_present same w true ≡ true
      → (present same w true rootfs_tar ≡ true)
        × (present same w true oci_archive ≡ true)
        × (present same w true calibration ≡ true)
        × (present same w true reference_image ≡ true)
        × (present same w true payload_iso ≡ true)
  unfolding artifacts_present
  artifacts_present-all h = (ground arith, ground arith, ground arith, ground arith, ground arith)

  metadata_valid-status :
      (r : Realized Value) → metadata_valid same w true r ≡ true → r.status ≡ text "materialized"
  unfolding metadata_valid
  metadata_valid-status r h = is_text_iff "materialized" r.status (ground arith)

  sections_same :
      (r : Realized Value)
      → source_sections_match same w true r ≡ true
      → all (λ name. same (r.section name) (w.lock.section name)) sections ≡ true
  unfolding source_sections_match
  sections_same r h = h

  -- two fields that are the digest of one file
  same_digest : (a : Artifact) (u v : Field) → IsDigestOf same w a u → IsDigestOf same w a v → u ≡ v
  same_digest a u v (f, found, is) (g, again, too) =
      let same_file : f ≡ g = cc (found, again) in
      is ∙ (ap (λ (x : File). text x.sha256) same_file ∙ sym too)

  materialized_of :
      (r : Realized Value)
      → w.realized_read ≡ mapping r
      → (judge_realized same w true r).ready ≡ true
      → IsMaterialized
  materialized_of r found h =
      let (structural, linked) = judge_realized-ready r h in
      let (metadata, sources, filled, present_all, calibrated) = is_structural-parts r structural in
      let (rootfs_here, archive_here, calibration_here, image_here, payload_here) =
        artifacts_present-all present_all in
      let c = calibration_status-IsCalibrated same w calibrated in
      elim (Option-cases r.resolved) [
        | inl nothing ↦ absurd (no_fields r.resolved nothing filled)
        | inr (resolved, there) ↦
            let (image, payload, rootfs, archive, accepted) =
              is_bound-parts resolved (rw there at linked) in
            let image_file = matches-IsDigestOf same w reference_image _ image_here image in
            let payload_file = matches-IsDigestOf same w payload_iso _ payload_here payload in
            record {
              document = r;
              document_read = found;
              status = metadata_valid-status r metadata;
              same_sources = sections_same r sources;
              resolved = resolved;
              resolved_read = there;
              image = image_file;
              payload = payload_file;
              rootfs = matches-IsDigestOf same w rootfs_tar _ rootfs_here rootfs;
              archive = matches-IsDigestOf same w oci_archive _ archive_here archive;
              accepted = matches-IsDigestOf same w calibration _ calibration_here accepted;
              calibrated = c.document;
              calibrated_read = c.document_read;
              same_image = same_digest reference_image _ _ c.image image_file;
              same_payload = same_digest payload_iso _ _ c.payload payload_file;
              same_profile = c.profile;
            }
      ]

  realized_status-IsMaterialized : (realized_status same w true).ready ≡ true → IsMaterialized
  unfolding realized_status
  realized_status-IsMaterialized h = elim (Bool-cases (present same w true realized_lock)) [
    | inr missing ↦ absurd (cc (rw (missing, realized_status) at h))
    | inl here ↦ elim (Read-cases w.realized_read) [
      | inr (inl broken) ↦ absurd (cc (rw (here, broken, realized_status) at h))
      | inr (inr shapeless) ↦ absurd (cc (rw (here, shapeless, realized_status) at h))
      | inl (r, found) ↦ materialized_of r found (rw (here, found, realized_status) at h)
    ]
  ]

  -- If a preflight that verifies the digests reports the reference as materialized, the lock of
  -- the sources is valid, and the realized lock is about the files that are there, as
  -- IsMaterialized spells out.
  pub preflight_reference-IsMaterialized :
      (preflight_reference same w true).materialization_ready ≡ true
      → (w.source_lock_valid ≡ true) × IsMaterialized
  unfolding preflight_reference
  preflight_reference-IsMaterialized h =
      let (valid, ready) =
        and-true w.source_lock_valid (realized_status same w true).ready
          (sym (is_none-next_action true) ∙ h) in
      (valid, realized_status-IsMaterialized ready)
