-- ===== src/Samples/ReferenceCases.antt =====
-- The theorems on src/osbench/reference.py in a workspace where everything is made.
use Prim.Native.String.{count as text_length}
use os_bench.Common.{
  ◌≤◌, String, ◌≡◌, refl, Bool, true, [], ◌∷◌, ◌==◌, eq_refl, elem, count, nodup, length, nat_eq,
  none, some, Dict, lookup, if◌then◌else◌,
}
use os_bench.Common.Int.{pos}
use os_bench.Common.Result.{ok}
use os_bench.Common.Sort.{IsSorted, sorted, sort_by, insert_sorted}
use os_bench.Common.Text.{text_leb, concat}
use os_bench.Reference.Documents.{Field, absent, text, File, mapping, Lock, Workspace}
use os_bench.Reference.Shop.{Shop, CalibrationFile}
use os_bench.Reference.Preflight.{
  preflight_reference, calibration_status, judge_calibration, calibration_metadata,
}
use os_bench.Reference.Preflight.Ready.{IsMaterialized, preflight_reference-IsMaterialized}
use os_bench.Reference.Calibrate.{
  Laboratory, CalibrationDocument, as_calibration, calibrate_unsynced_outcomes, trials_of,
  run_trials, run_trial, trial_outcome, calibration_document,
}
use os_bench.Reference.Calibrate.Counter.{outcomes_of, seen_times}
use os_bench.Reference.Calibrate.Counted.{calibrate_unsynced_outcomes-counts}
use os_bench.Reference.Calibrate.Accepted.{calibrate_unsynced_outcomes-preflight}
use os_bench.Reference.Realize.{
  realize_lock, realized_document, realized_fields, realized_artifacts, system_fields,
  artifact_fields, container_fields, installer_fields, inventory_fields, package_fields,
  package_versions, xorriso_field, calibration_fields, is_bound_calibration,
}
use os_bench.Reference.Realize.Resolved.{FindsSame}
use os_bench.Reference.Realize.Ready.{realize_lock-preflight}

-- 64 characters
abbrev sha : String
sha = "0123456789abcdef0123456789abcdef0123456789abcdef0123456789abcdef"

abbrev a_file : File
a_file = record { size_bytes = 10; sha256 = sha }

-- every second trial tears the block
abbrev laboratory : Laboratory
laboratory = record {
  is_profile_name = λ name. true;
  image = some a_file;
  payload = some a_file;
  has_contract = true;
  generate = λ seed. ok (record { case_id = "unsynced"; seed = seed });
  padded = λ index. "000";
  execute = λ index name. ok (record {
    status = some "ok";
    stderr = "";
    outcome_class = text (if nat_eq index 1 then "torn" else "lost");
    is_true = λ invariant. true;
  });
}

abbrev document : CalibrationDocument
document = record {
  contract = "persistence.crash.unsynced_bounds";
  profile = "macos_tcg";
  trial_count = 3;
  seed = 7;
  reference_image_sha256 = sha;
  payload_sha256 = sha;
  outcomes = "lost" ∷ "torn" ∷ [];
  counts = ("lost", 2) ∷ ("torn", 1) ∷ [];
  trials =
      record { trial = 0; case_id = "unsynced:calibration-000"; seed = 7; outcome = "lost" }
      ∷ record { trial = 1; case_id = "unsynced:calibration-000"; seed = 8; outcome = "torn" }
      ∷ record { trial = 2; case_id = "unsynced:calibration-000"; seed = 9; outcome = "lost" }
      ∷ [];
}

calibrates : calibrate_unsynced_outcomes laboratory (pos 3) "macos_tcg" 7 ≡ ok document
unfolding calibrate_unsynced_outcomes run_trials run_trial trial_outcome calibration_document sorted
    sort_by insert_sorted text_leb concat
calibrates = refl

abbrev lock : Lock String
lock = record {
  benchmark_version = text "0.1.0";
  reference_id = text "debian-13.6-amd64-osbench-v0.1";
  source_size = 10;
  source_sha256 = sha;
  section = λ name. name;
}

-- the fields of the checked-in lock that the realization asks for
abbrev template : Dict Field
template =
    ("image_sha256", absent)
    ∷ ("package_manifest_sha256", absent)
    ∷ ("kernel_version", absent)
    ∷ ("systemd_version", absent)
    ∷ ("libc_version", absent)
    ∷ ("payload_sha256", absent)
    ∷ ("unsynced_outcome_calibration_sha256", absent)
    ∷ []

abbrev calibration_file : CalibrationFile
calibration_file = record {
  path = "reference/oracle/unsynced_outcomes.macos_tcg.json";
  sha256 = sha;
  content = mapping (as_calibration document);
}

abbrev shop : Shop
shop = record {
  container = none;
  is_blank = λ line. line == "";
  installer = none;
  image = some a_file;
  inventory = some (record { package_manifest_sha256 = text sha; package_count = absent });
  packages = some (
      ("linux-image-6" ∷ "amd64" ∷ "6.12" ∷ [])
      ∷ ("systemd" ∷ "amd64" ∷ "257" ∷ [])
      ∷ ("libc6" ∷ "amd64" ∷ "2.41" ∷ [])
      ∷ []);
  qemu = none;
  xorriso = none;
  ovmf = none;
  rootfs = some a_file;
  oci_archive = some a_file;
  workload_manifest = none;
  probe_manifest = none;
  payload = some a_file;
  profile = "macos_tcg";
  calibration = some calibration_file;
}

-- the workspace with the realized document
abbrev workspace_of : String × Dict Field → Workspace String
workspace_of outcome = record {
  file = λ a. some a_file;
  calibration_read = mapping (as_calibration document);
  realized_read = mapping (realized_document lock outcome);
  lock = lock;
  source_lock_valid = true;
  profile = "macos_tcg";
  tool = λ name. true;
  keyring = true;
  firmware_code = true;
  firmware_vars = true;
}

abbrev same : String → String → Bool
same a b = a == b

-- the workspace before the lock is realized
abbrev workspace : Workspace String
workspace = workspace_of ("partially_materialized", [])

calibrate_unsynced_outcomes-counts_example :
    (length document.trials ≡ trials_of (pos 3))
    × (2 ≤ trials_of (pos 3))
    × ((k : String) → lookup k document.counts ≡ seen_times (count k (outcomes_of document.trials)))
    × ((k : String) → elem k document.outcomes ≡ elem k (outcomes_of document.trials))
    × IsSorted text_leb document.outcomes
    × (nodup document.outcomes ≡ true)
calibrate_unsynced_outcomes-counts_example =
    calibrate_unsynced_outcomes-counts laboratory (pos 3) "macos_tcg" 7 document calibrates

sha_length : (f : File) → some a_file ≡ some f → text_length f.sha256 ≡ 64
sha_length f same_file = let e : a_file ≡ f = cc same_file in rw (← e) refl

calibrate_unsynced_outcomes-preflight_example :
    calibration_status same workspace true
    ≡ record { ready = true; reason = "ready"; binding_verified = some true }
calibrate_unsynced_outcomes-preflight_example =
    calibrate_unsynced_outcomes-preflight same workspace laboratory (pos 3) 7 document calibrates
      refl sha_length sha_length refl refl refl refl

realization :
    (outcome : String × Dict Field) × (realize_lock shop template ≡ ok outcome)
    × (outcome.0 ≡ "materialized")
unfolding realize_lock realized_fields realized_artifacts system_fields artifact_fields
    container_fields installer_fields inventory_fields package_fields package_versions xorriso_field
    calibration_fields is_bound_calibration sorted sort_by insert_sorted
realization = (_, refl, refl)

-- the workspace after it
abbrev ready_workspace : Workspace String
ready_workspace = workspace_of (realization.0)

abbrev finds_same : FindsSame same shop ready_workspace
finds_same = record {
  image = a_file;
  image_here = refl;
  image_shop = refl;
  payload = a_file;
  payload_here = refl;
  payload_shop = refl;
  rootfs = a_file;
  rootfs_here = refl;
  rootfs_shop = refl;
  archive = a_file;
  archive_here = refl;
  archive_shop = refl;
  inventory = a_file;
  inventory_here = refl;
  accepted = a_file;
  accepted_here = refl;
  calibration_file = calibration_file;
  calibration_shop = refl;
  calibration_sha = refl;
  calibration_content = refl;
  profile = refl;
}

calibrated : (calibration_status same ready_workspace true).ready ≡ true
unfolding calibration_status judge_calibration calibration_metadata
calibrated = refl

realize_lock-preflight_example :
    (preflight_reference same ready_workspace true).materialization_ready ≡ true
realize_lock-preflight_example =
    realize_lock-preflight same shop ready_workspace template (realization.0) finds_same eq_refl
      refl refl refl refl refl calibrated (realization.1) (realization.2) refl refl

materialized : (preflight_reference same ready_workspace true).materialization_ready ≡ true
materialized =
    realize_lock-preflight same shop ready_workspace template (realization.0) finds_same eq_refl
      refl refl refl refl refl calibrated (realization.1) (realization.2) refl refl

preflight_reference-IsMaterialized_example :
    (ready_workspace.source_lock_valid ≡ true) × IsMaterialized same ready_workspace
preflight_reference-IsMaterialized_example =
    preflight_reference-IsMaterialized same ready_workspace materialized
