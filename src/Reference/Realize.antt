-- ===== src/Reference/Realize.antt =====
-- `realize_lock` of src/osbench/reference.py: the fields of the realized lock, filled in from the
-- artifacts that are there.
pub mod Fields
pub mod Digests
pub mod Resolved
pub mod Ready
use os_bench.Common.{
  ℕ, String, Bool, true, false, not, ◌&&◌, List, [], ◌∷◌, ◌++◌, ◌==◌, elem, add, Option, none, some,
  Dict, keys, lookup, insert, all, keep, count_if, if◌then◌else◌,
}
use package.text.Mathlib.Text.{starts_with}
use os_bench.Common.Result.{Result, ok, err, Error, key_error}
use os_bench.Common.Sort.{sorted}
use os_bench.Reference.Shop.{
  ContainerManifest, InstallerManifest, InventoryManifest, CalibrationFile, Shop,
}
use os_bench.Reference.Documents.{
  Field, absent, text, number, names, table, other, is_set, is_text, is_nonempty_text, has_outcomes,
  get, Read, invalid_json, invalid_document, mapping, Calibration, Lock, Realized, File,
}

-- `fields[key] = value`, in order
abbrev pub update : Dict Field → Dict Field → Dict Field
update [] fields = fields
update ((key, value) ∷ rest) fields = update rest (insert key value fields)

abbrev pub file_field : String → Option File → Dict Field
file_field name none = []
file_field name (some f) = (name, text f.sha256) ∷ []

abbrev pub tool_field : String → Option Field → Dict Field
tool_field name none = []
tool_field name (some version) = (name, version) ∷ []

abbrev pub is_absent : Field → Bool
is_absent absent = true
is_absent (text s) = false
is_absent (number n) = false
is_absent (names ns) = false
is_absent (table es) = false
is_absent (other truth) = false

-- `value == fields.get(name)`, for digests: any value but a text or `None` is taken for unequal
abbrev pub same_field : Field → Field → Bool
same_field absent value = is_absent value
same_field (text s) value = is_text s value
same_field (number n) value = false
same_field (names ns) value = false
same_field (table es) value = false
same_field (other truth) value = false

-- the texts of a list that has passed `has_outcomes`, without repeats
abbrev pub add_text : Field → List String → List String
add_text absent set = set
add_text (text s) set = add s set
add_text (number n) set = set
add_text (names ns) set = set
add_text (table es) set = set
add_text (other truth) set = set

abbrev pub set_of : List Field → List String
set_of [] = []
set_of (v ∷ vs) = add_text v (set_of vs)

-- `set(outcomes)`
abbrev pub distinct_texts : Option (List Field) → List String
distinct_texts none = []
distinct_texts (some outcomes) = set_of outcomes

abbrev pub required_fields : List String
required_fields =
    "image_sha256" ∷ "package_manifest_sha256" ∷ "kernel_version" ∷ "systemd_version"
    ∷ "libc_version" ∷ "payload_sha256" ∷ "unsynced_outcome_calibration_sha256" ∷ []

module _ (shop : Shop) where
  unfoldable pub container_fields : Option ContainerManifest → Dict Field
  container_fields none = []
  container_fields (some m) =
      ("container_package_manifest_sha256", text m.sha256)
      ∷ ("container_package_count", number (count_if (λ line. not (shop.is_blank line)) m.lines))
      ∷ []

  unfoldable pub installer_fields : Option InstallerManifest → Dict Field
  installer_fields none = []
  installer_fields (some m) =
      ("installer_iso_sha256", m.iso_sha256)
      ∷ ("installer_iso_size_bytes", m.iso_size_bytes)
      ∷ ("installer_initrd_sha256", m.initrd_sha256)
      ∷ ("installer_grub_cfg_sha256", m.grub_cfg_sha256)
      ∷ ("xorriso_version", m.xorriso_version)
      ∷ []

  unfoldable pub inventory_fields : Option InventoryManifest → Dict Field
  inventory_fields none = []
  inventory_fields (some m) =
      ("package_manifest_sha256", m.package_manifest_sha256)
      ∷ ("package_count", m.package_count)
      ∷ []

  -- `package_versions[parts[0]] = parts[2]` where there are three parts
  abbrev pub add_package : List String → Dict String → Dict String
  add_package [] versions = versions
  add_package (a ∷ []) versions = versions
  add_package (a ∷ b ∷ []) versions = versions
  add_package (a ∷ b ∷ c ∷ rest) versions = insert a c versions

  unfoldable pub package_versions : List (List String) → Dict String → Dict String
  package_versions [] versions = versions
  package_versions (row ∷ rows) versions = package_versions rows (add_package row versions)

  -- `package_versions.get(name)`
  abbrev pub version_of : String → Dict String → Field
  version_of name versions = elim (lookup name versions) [ none ↦ absent | some v ↦ text v ]

  abbrev pub first_name : List String → Option String
  first_name [] = none
  first_name (n ∷ ns) = some n

  abbrev pub name_field : Option String → Field
  name_field none = absent
  name_field (some n) = text n

  -- `package_versions.get(kernel_package) if kernel_package else None`
  abbrev pub kernel_version : Option String → Dict String → Field
  kernel_version none versions = absent
  kernel_version (some n) versions = if n == "" then absent else version_of n versions

  abbrev pub shells : Dict String → List String → Dict String
  shells versions [] = []
  shells versions (n ∷ ns) =
      let rest = shells versions ns in
      elim (lookup n versions) [ none ↦ rest | some v ↦ (n, v) ∷ rest ]

  unfoldable pub package_fields : Option (List (List String)) → Dict Field
  unfolding package_versions
  package_fields none = []
  package_fields (some rows) =
      let versions = package_versions rows [] in
      let kernel = first_name (keep (λ n. starts_with n "linux-image-") (keys versions)) in
      ("kernel_package", name_field kernel)
      ∷ ("kernel_version", kernel_version kernel versions)
      ∷ ("systemd_version", version_of "systemd" versions)
      ∷ ("libc_version", version_of "libc6" versions)
      ∷ ("coreutils_version", version_of "coreutils" versions)
      ∷ ("shell_versions", table (shells versions ("bash" ∷ "dash" ∷ [])))
      ∷ (
        "firmware_packages",
        names (sorted (keep (λ n. starts_with n "firmware-") (keys versions))),
      )
      ∷ []

  -- `if not fields.get("xorriso_version") and shutil.which("xorriso")`
  unfoldable pub xorriso_field : Dict Field → Dict Field
  xorriso_field fields =
      if is_set (get "xorriso_version" fields)
      then []
      else tool_field "xorriso_version" shop.xorriso

  -- `_realize_unsynced_calibration`: its test of the document
  unfoldable pub is_bound_calibration : Dict Field → Calibration → Bool
  is_bound_calibration fields d =
      is_text "osbench.accepted_outcomes.v1" d.schema_version
      && (is_text "0.1.0" d.benchmark_version
          && (is_text "debian-13.6-amd64-osbench-v0.1" d.reference_id
              && (is_text "persistence.crash.unsynced_bounds" d.contract
                  && (is_text shop.profile d.profile
                      && (same_field d.reference_image_sha256 (get "image_sha256" fields)
                          && (same_field d.payload_sha256 (get "payload_sha256" fields)
                              && has_outcomes d.outcomes))))))

  -- what it sets when the document passes
  abbrev pub bound_fields : CalibrationFile → Calibration → Dict Field
  bound_fields c d =
      ("unsynced_outcome_calibration_profile", text shop.profile)
      ∷ ("unsynced_outcome_calibration_path", text c.path)
      ∷ ("unsynced_outcome_calibration_sha256", text c.sha256)
      ∷ ("unsynced_outcome_calibration_trial_count", d.trial_count)
      ∷ ("unsynced_outcome_calibration_outcomes", names (sorted (distinct_texts d.outcomes)))
      ∷ []

  unfoldable pub calibration_fields : Dict Field → Option CalibrationFile → Dict Field
  unfolding is_bound_calibration
  calibration_fields fields none = []
  calibration_fields fields (some c) = elim c.content [
    | invalid_json ↦ []
    | invalid_document ↦ []
    | mapping d ↦ if is_bound_calibration fields d then bound_fields c d else []
  ]

  -- what is filled in before the version of xorriso is looked at
  unfoldable pub system_fields : Dict Field
  unfolding container_fields installer_fields inventory_fields package_fields
  system_fields =
      container_fields shop.container
      ++ (installer_fields shop.installer
          ++ (file_field "image_sha256" shop.image
              ++ (inventory_fields shop.inventory
                  ++ (package_fields shop.packages ++ tool_field "qemu_version" shop.qemu))))

  -- the files, after it
  unfoldable pub artifact_fields : Dict Field
  artifact_fields =
      file_field "ovmf_sha256" shop.ovmf
      ++ (file_field "oci_rootfs_sha256" shop.rootfs
          ++ (file_field "oci_archive_sha256" shop.oci_archive
              ++ (file_field "workload_fixture_manifest_sha256" shop.workload_manifest
                  ++ (file_field "raw_probe_manifest_sha256" shop.probe_manifest
                      ++ file_field "payload_sha256" shop.payload))))

  -- the fields when everything but the calibration is filled in
  unfoldable pub realized_artifacts : Dict Field → Dict Field
  unfolding system_fields artifact_fields xorriso_field
  realized_artifacts fields =
      let first = update system_fields fields in
      update artifact_fields (update (xorriso_field first) first)

  unfoldable pub realized_fields : Dict Field → Dict Field
  unfolding realized_artifacts calibration_fields
  realized_fields fields =
      let filled = realized_artifacts fields in
      update (calibration_fields filled shop.calibration) filled

  -- the status, and the fields; a required field that the lock never had is a KeyError
  unfoldable pub realize_lock : Dict Field → Result (String × Dict Field)
  unfolding realized_fields
  realize_lock fields =
      let filled = realized_fields fields in
      if not (all (λ name. elem name (keys filled)) required_fields)
      then err (key_error "resolved_from_installed_system")
      else ok (
        if all (λ name. is_set (get name filled)) required_fields
            then "materialized"
            else "partially_materialized",
        filled,
      )

-- the document that is written: the lock with the fields and the status
abbrev pub realized_document : {Value : Type 0} → Lock Value → String × Dict Field → Realized Value
realized_document lock outcome = record {
  benchmark_version = lock.benchmark_version;
  reference_id = lock.reference_id;
  status = text outcome.0;
  section = lock.section;
  resolved = some outcome.1;
}
