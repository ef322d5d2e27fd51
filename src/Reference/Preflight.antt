-- ===== src/Reference/Preflight.antt =====
-- `preflight_reference` of src/osbench/reference.py.
pub mod Calibrated
pub mod Ready
pub mod Due
use os_bench.Common.{
  ℕ, String, Bool, true, false, not, ◌&&◌, ◌||◌, List, [], ◌∷◌, ◌==◌, Option, none, some, Dict,
  nat_eq, all, keep, if◌then◌else◌,
}
use os_bench.Reference.Report.{
  Status, not_ready, bound, ready_unverified, Stage, Action, lock_sources, lock_realize,
  compose_build, remove_source_iso, payload_build, reference_build, inventory, export_oci,
  calibrate_unsynced, Preflight, sections, required_resolved_fields,
}
use os_bench.Reference.Documents.{
  Field, is_set, is_text, matches, is_digest, get, Read, invalid_json, invalid_document, mapping,
  Calibration, has_outcomes, Realized, Lock, File, Artifact, source_iso, payload_iso,
  reference_image, inventory_manifest, rootfs_tar, oci_archive, calibration, realized_lock,
  Workspace,
}

abbrev pub is_none {ℓ} : {A : Type ℓ} → Option A → Bool
is_none none = true
is_none (some a) = false

-- `source_iso_valid is False`
abbrev pub is_false : Option Bool → Bool
is_false none = false
is_false (some valid) = not valid

module _ {Value : Type 0} (same : Value → Value → Bool) (w : Workspace Value)
    (verify_hashes : Bool) where
  abbrev pub present : Artifact → Bool
  present a = not (is_none (w.file a))

  -- `artifacts[name].get("sha256")`
  abbrev pub digest : Artifact → Option String
  digest a = elim (w.file a) [
    | none ↦ none
    | some f ↦ if verify_hashes then some f.sha256 else none
  ]

  unfoldable pub source_iso_valid : Option Bool
  source_iso_valid = elim (w.file source_iso) [
    | none ↦ none
    | some f ↦ some (
        nat_eq f.size_bytes w.lock.source_size
        && (not verify_hashes || f.sha256 == w.lock.source_sha256))
  ]

  unfoldable pub calibration_metadata : Calibration → Bool
  calibration_metadata d =
      is_text "osbench.accepted_outcomes.v1" d.schema_version
      && (is_text "0.1.0" d.benchmark_version
          && (is_text "debian-13.6-amd64-osbench-v0.1" d.reference_id
              && (is_text w.profile d.profile
                  && (is_text "persistence.crash.unsynced_bounds" d.contract
                      && (has_outcomes d.outcomes
                          && (is_digest d.reference_image_sha256 && is_digest d.payload_sha256))))))

  -- the report on the calibration document
  unfoldable pub judge_calibration : Calibration → Status
  unfolding calibration_metadata
  judge_calibration d =
      if not (calibration_metadata d)
      then not_ready "metadata_mismatch"
      else if not (present reference_image && present payload_iso)
      then not_ready "artifacts_missing"
      else if verify_hashes
      then bound
          (matches d.reference_image_sha256 (digest reference_image)
            && matches d.payload_sha256 (digest payload_iso))
          "metadata_or_artifact_mismatch"
      else ready_unverified

  unfoldable pub calibration_status : Status
  unfolding judge_calibration
  calibration_status =
      if not (present calibration) then not_ready "missing" else elim w.calibration_read [
        | invalid_json ↦ not_ready "invalid_json"
        | invalid_document ↦ not_ready "invalid_document"
        | mapping d ↦ judge_calibration d
      ]

  -- `resolved_fields_present`
  unfoldable pub has_resolved_fields : Option (Dict Field) → Bool
  has_resolved_fields none = false
  has_resolved_fields (some resolved) =
      all (λ name. is_set (get name resolved)) required_resolved_fields
      && is_text w.profile (get "unsynced_outcome_calibration_profile" resolved)

  unfoldable pub artifacts_present : Bool
  artifacts_present = all present (
      reference_image ∷ payload_iso ∷ inventory_manifest ∷ rootfs_tar ∷ oci_archive ∷ calibration
      ∷ [])

  unfoldable pub metadata_valid : Realized Value → Bool
  metadata_valid r =
      is_text "0.1.0" r.benchmark_version
      && (is_text "debian-13.6-amd64-osbench-v0.1" r.reference_id
          && is_text "materialized" r.status)

  unfoldable pub source_sections_match : Realized Value → Bool
  source_sections_match r = all (λ name. same (r.section name) (w.lock.section name)) sections

  -- `structural_ready`
  unfoldable pub is_structural : Realized Value → Bool
  unfolding metadata_valid source_sections_match has_resolved_fields artifacts_present
  is_structural r =
      metadata_valid r
      && (source_sections_match r
          && (has_resolved_fields r.resolved && (artifacts_present && (calibration_status).ready)))

  -- the digests of the artifacts against the fields
  unfoldable pub is_bound : Option (Dict Field) → Bool
  is_bound none = false
  is_bound (some resolved) =
      matches (get "image_sha256" resolved) (digest reference_image)
      && (matches (get "payload_sha256" resolved) (digest payload_iso)
          && (matches (get "oci_rootfs_sha256" resolved) (digest rootfs_tar)
              && (matches (get "oci_archive_sha256" resolved) (digest oci_archive)
                  && matches (get "unsynced_outcome_calibration_sha256" resolved)
                      (digest calibration))))

  unfoldable pub judge_realized : Realized Value → Status
  unfolding is_structural is_bound
  judge_realized r =
      if not (is_structural r)
      then not_ready "metadata_source_or_artifact_mismatch"
      else if verify_hashes
      then bound (is_bound r.resolved) "artifact_hash_mismatch"
      else ready_unverified

  unfoldable pub realized_status : Status
  unfolding judge_realized
  realized_status =
      if not (present realized_lock) then not_ready "missing" else elim w.realized_read [
        | invalid_json ↦ not_ready "invalid_json"
        | invalid_document ↦ not_ready "invalid_document"
        | mapping r ↦ judge_realized r
      ]

  -- a stage that wants the tools and, besides, `also`
  abbrev pub stage : List String → Bool → Stage
  stage tools also = record {
    ready = all w.tool tools && also;
    missing_tools = keep (λ name. not (w.tool name)) tools;
  }

  abbrev pub source_stage : Stage
  source_stage = stage ("curl" ∷ "gpgv" ∷ "sha256sum" ∷ []) w.keyring

  abbrev pub payload_stage : Stage
  payload_stage = stage ("xorriso" ∷ "gcc" ∷ "x86_64-linux-gnu-gcc" ∷ "dpkg-deb" ∷ "make" ∷ []) true

  abbrev pub reference_stage : Stage
  reference_stage =
      stage ("xorriso" ∷ "qemu-system-x86_64" ∷ "qemu-img" ∷ "guestfish" ∷ [])
        (w.firmware_code && w.firmware_vars)

  abbrev pub inventory_stage : Stage
  inventory_stage = stage ("guestfish" ∷ "virt-copy-out" ∷ []) true

  -- the branches of `next_action` from the third on, which all name a command
  unfoldable pub next_stage : Action
  unfolding source_iso_valid calibration_status
  next_stage =
      if present payload_iso
        && (present reference_image
            && (present inventory_manifest
                && (present rootfs_tar && (present oci_archive && (calibration_status).ready))))
      then lock_realize
      else if not (source_stage).ready
          || (not (payload_stage).ready
              || (not (reference_stage).ready || not (inventory_stage).ready))
      then compose_build
      else if is_false source_iso_valid
      then remove_source_iso
      else if not (present payload_iso)
      then payload_build
      else if not (present reference_image)
      then reference_build
      else if not (present inventory_manifest)
      then inventory
      else if not (present rootfs_tar) || not (present oci_archive)
      then export_oci
      else if not (calibration_status).ready
      then calibrate_unsynced
      else lock_realize

  unfoldable pub next_action : Option Action
  unfolding next_stage realized_status
  next_action =
      if not w.source_lock_valid
      then some lock_sources
      else if (realized_status).ready
      then none
      else some next_stage

  unfoldable pub preflight_reference : Preflight
  unfolding next_action
  preflight_reference = record {
    source_lock_valid = w.source_lock_valid;
    source_acquisition = source_stage;
    payload_stage = payload_stage;
    reference_stage = reference_stage;
    inventory_stage = inventory_stage;
    source_iso_valid = source_iso_valid;
    calibration_status = calibration_status;
    realized_status = realized_status;
    materialization_ready = is_none next_action;
    next_action = next_action;
  }
