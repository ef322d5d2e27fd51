-- ===== src/Reference/Report.antt =====
-- The report of `preflight_reference` of src/osbench/reference.py, and the names it goes by.
use os_bench.Common.{String, Bool, true, false, List, [], ◌∷◌, Option, none, some, if◌then◌else◌}

-- the members `calibration` and `realized_lock` of the report
pub record Status : Type 0 where
  pub ready : Bool
  pub reason : String
  pub binding_verified : Option Bool

abbrev pub not_ready : String → Status
not_ready reason = record { ready = false; reason = reason; binding_verified = none }

-- what comparing the digests comes to
abbrev pub bound : Bool → String → Status
bound verified otherwise = record {
  ready = verified;
  reason = if verified then "ready" else otherwise;
  binding_verified = some verified;
}

abbrev pub ready_unverified : Status
ready_unverified = record { ready = true; reason = "ready_unverified"; binding_verified = none }

pub record Stage : Type 0 where
  pub ready : Bool
  pub missing_tools : List String

-- `next_action`: the commands that it names
pub data Action : Type 0 where
  lock_sources lock_realize compose_build remove_source_iso payload_build : Action
  reference_build inventory export_oci calibrate_unsynced : Action

pub record Preflight : Type 0 where
  pub source_lock_valid : Bool
  pub source_acquisition : Stage
  pub payload_stage : Stage
  pub reference_stage : Stage
  pub inventory_stage : Stage
  pub source_iso_valid : Option Bool
  pub calibration_status : Status
  pub realized_status : Status
  pub materialization_ready : Bool
  pub next_action : Option Action

abbrev pub sections : List String
sections =
    "benchmark_sources" ∷ "container_build_environment" ∷ "offline_package_corpus"
    ∷ "payload_sources" ∷ "raw_probe_sources" ∷ "reference_builder_sources"
    ∷ "workload_fixture_sources" ∷ []

abbrev pub required_resolved_fields : List String
required_resolved_fields =
    "image_sha256" ∷ "package_manifest_sha256" ∷ "kernel_version" ∷ "systemd_version"
    ∷ "libc_version" ∷ "payload_sha256" ∷ "oci_rootfs_sha256" ∷ "oci_archive_sha256"
    ∷ "unsynced_outcome_calibration_sha256" ∷ []
