-- ===== src/Reference/Preflight/Due.antt =====
-- When `preflight_reference` names which next action.
use os_bench.Common.{◌≡◌, Bool, true, false, not, ◌&&◌, ◌||◌, List, [], ◌∷◌, all, some}
use os_bench.Reference.Documents.{
  Artifact, payload_iso, reference_image, inventory_manifest, rootfs_tar, oci_archive, Workspace,
}
use os_bench.Reference.Report.{
  Action, lock_sources, lock_realize, compose_build, remove_source_iso, payload_build,
  reference_build, inventory, export_oci, calibrate_unsynced,
}
use os_bench.Reference.Preflight.{
  present, calibration_status, realized_status, source_iso_valid, source_stage, payload_stage,
  reference_stage, inventory_stage,
}

module _ {Value : Type 0} (same : Value → Value → Bool) (w : Workspace Value)
    (verify_hashes : Bool) where
  abbrev here : Artifact → Bool
  here a = present same w verify_hashes a

  -- every stage has its tools
  abbrev pub equipped : Bool
  equipped =
      (source_stage same w verify_hashes).ready
      && ((payload_stage same w verify_hashes).ready
          && ((reference_stage same w verify_hashes).ready
              && (inventory_stage same w verify_hashes).ready))

  -- the products up to and including the n-th are there
  abbrev pub made : List Artifact → Bool
  made products = all here products

  -- what is known of the workspace when a command is named
  abbrev pub IsDue : Action → Type 0
  IsDue lock_sources = w.source_lock_valid ≡ false
  IsDue lock_realize =
      (made (payload_iso ∷ reference_image ∷ inventory_manifest ∷ rootfs_tar ∷ oci_archive ∷ [])
        ≡ true)
      × ((calibration_status same w verify_hashes).ready ≡ true)
      × ((realized_status same w verify_hashes).ready ≡ false)
  IsDue compose_build = equipped ≡ false
  IsDue remove_source_iso = (equipped ≡ true) × (source_iso_valid same w verify_hashes ≡ some false)
  IsDue payload_build = (equipped ≡ true) × (here payload_iso ≡ false)
  IsDue reference_build =
      (equipped ≡ true) × (here payload_iso ≡ true) × (here reference_image ≡ false)
  IsDue inventory =
      (equipped ≡ true)
      × (made (payload_iso ∷ reference_image ∷ []) ≡ true)
      × (here inventory_manifest ≡ false)
  IsDue export_oci =
      (equipped ≡ true)
      × (made (payload_iso ∷ reference_image ∷ inventory_manifest ∷ []) ≡ true)
      × (made (rootfs_tar ∷ oci_archive ∷ []) ≡ false)
  IsDue calibrate_unsynced =
      (equipped ≡ true)
      × (made (payload_iso ∷ reference_image ∷ inventory_manifest ∷ rootfs_tar ∷ oci_archive ∷ [])
          ≡ true)
      × ((calibration_status same w verify_hashes).ready ≡ false)

  -- everything is made and the calibration is ready
  abbrev complete : Bool
  complete =
      here payload_iso
      && (here reference_image
          && (here inventory_manifest
              && (here rootfs_tar
                  && (here oci_archive && (calibration_status same w verify_hashes).ready))))

  abbrev unequipped : Bool
  unequipped =
      not (source_stage same w verify_hashes).ready
      || (not (payload_stage same w verify_hashes).ready
          || (not (reference_stage same w verify_hashes).ready
              || not (inventory_stage same w verify_hashes).ready))
