-- ===== src/Reference/Realize/Resolved.antt =====
-- The realized fields against the files that the preflight finds.
use os_bench.Common.{
  String, ◌≡◌, refl, ap, ◌∙◌, Bool, true, false, ◌&&◌, ◌==◌, eq_refl, some, Dict, all, arith,
}
use os_bench.Reference.Documents.{
  Field, text, is_set, is_text, is_digest, has_outcomes, matches, get, File, Artifact, Workspace,
  calibration, reference_image, payload_iso, inventory_manifest, rootfs_tar, oci_archive,
}
use os_bench.Reference.Preflight.{digest, calibration_metadata, has_resolved_fields, is_bound}
use os_bench.Reference.Preflight.Calibrated.{IsCalibrated}
use os_bench.Reference.Shop.{Shop, CalibrationFile}
use os_bench.Reference.Realize.{
  same_field, is_bound_calibration, calibration_fields, bound_fields, realized_artifacts,
  realized_fields, required_fields, update,
}
use os_bench.Reference.Realize.Fields.{bound_profile, bound_digest, unbound}
use os_bench.Reference.Realize.Digests.{rootfs_realized, archive_realized, payload_kept, image_kept}

reordered :
    (a b c p k o x y q s t : Bool)
    → (a && (b && (c && (p && (k && (o && (x && y))))))) ≡ true
    → q ≡ true
    → s ≡ true
    → t ≡ true
    → (a && (b && (c && (k && (q && (s && (t && o))))))) ≡ true
reordered a b c p k o x y q s t h r u v = ground arith

widened :
    (a b c d e f g r s p : Bool)
    → (a && (b && (c && (d && (e && (f && (g && true))))))) ≡ true
    → r ≡ true
    → s ≡ true
    → p ≡ true
    → ((a && (b && (c && (d && (e && (f && (r && (s && (g && true))))))))) && p) ≡ true
widened a b c d e f g r s p h x y z = ground arith

nonempty_is_set : (v : Field) (sha : String) → v ≡ text sha → (sha == "") ≡ false → is_set v ≡ true
nonempty_is_set v sha e nonempty = rw (e, nonempty) refl

pub joined5 :
    (a b c d e : Bool)
    → a ≡ true
    → b ≡ true
    → c ≡ true
    → d ≡ true
    → e ≡ true
    → (a && (b && (c && (d && e)))) ≡ true
joined5 a b c d e v w x y z = ground arith

module _ {Value : Type 0} (same : Value → Value → Bool) (shop : Shop) (w : Workspace Value) where
  -- The realization and the preflight find the same files.
  pub record FindsSame : Type 0 where
    pub image : File
    pub image_here : w.file reference_image ≡ some image
    pub image_shop : shop.image ≡ some image
    pub payload : File
    pub payload_here : w.file payload_iso ≡ some payload
    pub payload_shop : shop.payload ≡ some payload
    pub rootfs : File
    pub rootfs_here : w.file rootfs_tar ≡ some rootfs
    pub rootfs_shop : shop.rootfs ≡ some rootfs
    pub archive : File
    pub archive_here : w.file oci_archive ≡ some archive
    pub archive_shop : shop.oci_archive ≡ some archive
    pub inventory : File
    pub inventory_here : w.file inventory_manifest ≡ some inventory
    pub accepted : File
    pub accepted_here : w.file calibration ≡ some accepted
    pub calibration_file : CalibrationFile
    pub calibration_shop : shop.calibration ≡ some calibration_file
    pub calibration_sha : calibration_file.sha256 ≡ accepted.sha256
    pub calibration_content : calibration_file.content ≡ w.calibration_read
    pub profile : shop.profile ≡ w.profile

  same_text : (v u : Field) (sha : String) → v ≡ text sha → u ≡ text sha → same_field v u ≡ true
  same_text v u sha e d = rw (e, d) (eq_refl sha)

  -- a calibration that the preflight accepts is one that the realization binds
  bound_of_ready :
      (fields : Dict Field) (h : FindsSame) (c : IsCalibrated same w)
      → is_bound_calibration shop (realized_artifacts shop fields) c.document ≡ true
  unfolding is_bound_calibration calibration_metadata
  bound_of_ready fields h c =
      let (f, there, image) = c.image in
      let (g, too, payload) = c.payload in
      let same_image : f ≡ h.image = cc (there, h.image_here) in
      let same_payload : g ≡ h.payload = cc (too, h.payload_here) in
      let first =
        same_text c.document.reference_image_sha256
          (get "image_sha256" (realized_artifacts shop fields)) h.image.sha256
          (rw (← same_image) image) (image_kept shop fields h.image h.image_shop) in
      let second =
        same_text c.document.payload_sha256 (get "payload_sha256" (realized_artifacts shop fields))
          h.payload.sha256 (rw (← same_payload) payload)
          (payload_kept shop fields h.payload h.payload_shop) in
      let by : is_text shop.profile c.document.profile ≡ true =
        rw (c.profile) (ap (λ n. w.profile == n) h.profile ∙ eq_refl w.profile) in
      reordered (is_text "osbench.accepted_outcomes.v1" c.document.schema_version)
        (is_text "0.1.0" c.document.benchmark_version)
        (is_text "debian-13.6-amd64-osbench-v0.1" c.document.reference_id)
        (is_text w.profile c.document.profile)
        (is_text "persistence.crash.unsynced_bounds" c.document.contract)
        (has_outcomes c.document.outcomes) (is_digest c.document.reference_image_sha256)
        (is_digest c.document.payload_sha256) _ _ _ c.metadata by first second

  realized_calibration :
      (fields : Dict Field) (h : FindsSame) (c : IsCalibrated same w)
      → realized_fields shop fields
        ≡ update (bound_fields shop h.calibration_file c.document) (realized_artifacts shop fields)
  unfolding realized_fields calibration_fields
  realized_calibration fields h c =
      rw
        (
          h.calibration_shop,
          calibration_fields,
          h.calibration_content,
          c.document_read,
          bound_of_ready fields h c,
        )
        refl

  calibration_digests :
      (fields : Dict Field) (h : FindsSame) (c : IsCalibrated same w)
      → (get "unsynced_outcome_calibration_profile" (realized_fields shop fields)
          ≡ text shop.profile)
        × (get "unsynced_outcome_calibration_sha256" (realized_fields shop fields)
            ≡ text h.accepted.sha256)
  calibration_digests fields h c = rw (realized_calibration fields h c) (
    bound_profile shop h.calibration_file c.document (realized_artifacts shop fields),
    bound_digest shop h.calibration_file c.document (realized_artifacts shop fields)
        ∙ ap text h.calibration_sha,
  )

  pub resolved_present :
      (fields : Dict Field) (h : FindsSame) (c : IsCalibrated same w)
      → (h.rootfs.sha256 == "") ≡ false
      → (h.archive.sha256 == "") ≡ false
      → all (λ name. is_set (get name (realized_fields shop fields))) required_fields ≡ true
      → has_resolved_fields same w true (some (realized_fields shop fields)) ≡ true
  unfolding has_resolved_fields
  resolved_present fields h c rootfs archive set =
      let filled = realized_fields shop fields in
      let (by, accepted) = calibration_digests fields h c in
      widened (is_set (get "image_sha256" filled)) (is_set (get "package_manifest_sha256" filled))
        (is_set (get "kernel_version" filled)) (is_set (get "systemd_version" filled))
        (is_set (get "libc_version" filled)) (is_set (get "payload_sha256" filled))
        (is_set (get "unsynced_outcome_calibration_sha256" filled))
        (is_set (get "oci_rootfs_sha256" filled)) (is_set (get "oci_archive_sha256" filled))
        (is_text w.profile (get "unsynced_outcome_calibration_profile" filled)) set
        (nonempty_is_set _ h.rootfs.sha256 (rootfs_realized shop fields h.rootfs h.rootfs_shop)
          rootfs)
        (nonempty_is_set _ h.archive.sha256 (archive_realized shop fields h.archive h.archive_shop)
          archive)
        (rw by (ap (λ n. n == w.profile) h.profile ∙ eq_refl w.profile))

  matched :
      (a : Artifact) (v : Field) (f : File)
      → w.file a ≡ some f
      → v ≡ text f.sha256
      → matches v (digest same w true a) ≡ true
  matched a v f there is = rw (is, there, digest) (eq_refl f.sha256)

  pub digests_bound :
      (fields : Dict Field) (h : FindsSame) (c : IsCalibrated same w)
      → is_bound same w true (some (realized_fields shop fields)) ≡ true
  unfolding is_bound
  digests_bound fields h c =
      let filled = realized_fields shop fields in
      let image : get "image_sha256" filled ≡ text h.image.sha256 =
        unbound shop fields "image_sha256" refl ∙ image_kept shop fields h.image h.image_shop in
      let payload : get "payload_sha256" filled ≡ text h.payload.sha256 =
        unbound shop fields "payload_sha256" refl
        ∙ payload_kept shop fields h.payload h.payload_shop in
      joined5 _ _ _ _ _ (matched reference_image _ h.image h.image_here image)
        (matched payload_iso _ h.payload h.payload_here payload)
        (matched rootfs_tar _ h.rootfs h.rootfs_here
          (rootfs_realized shop fields h.rootfs h.rootfs_shop))
        (matched oci_archive _ h.archive h.archive_here
          (archive_realized shop fields h.archive h.archive_shop))
        (matched calibration _ h.accepted h.accepted_here (calibration_digests fields h c).1)
