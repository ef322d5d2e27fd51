-- ===== src/Qemu/Control.antt =====
-- `start` and `boot_check` of src/osbench/qemu.py.
use os_bench.Common.{
  ℕ, suc, String, Bool, true, not, List, [], ◌∷◌, Option, none, some, ◌==◌, if◌then◌else◌,
}
use os_bench.Common.Text.{concat}
use os_bench.Common.Result.{Result, ok, err, file_not_found, os_error}
use os_bench.Qemu.Profile.{Profile}
use os_bench.Qemu.Command.{Launch, RunPaths, first_existing, build_command}
use os_bench.Qemu.Machine.{
  Host, running, opened, Vm, Ended, returned, raised, and_then, finally, close_logs, stop, later,
}
use os_bench.Qemu.Serial.{wait_for_serial}

-- the files and the library functions that are asked
pub record Disk : Type 0 where
  pub is_file : String → Bool
  -- `shutil.which`
  pub has_program : String → Bool
  -- `Path.name`
  pub file_name : String → String
  pub repo_root : String
  -- the id made of the time and a random number
  pub fresh_id : ℕ → String
  -- `str` of a number
  pub shown : ℕ → String

-- what `start` returns; the process and the open files of `QemuRun` are in the state
pub record QemuRun : Type 0 where
  pub run_id : String
  pub command : List String
  pub paths : RunPaths
  pub work_dir : String

pub record BootReport : Type 0 where
  pub status : String
  pub exit_code : ℕ
  pub stdout : List ℕ
  pub booted : Bool
  pub run_id : String
  pub command : List String

-- `run_id or …`
abbrev pub chosen_id : Option String → String → String
chosen_id none fresh = fresh
chosen_id (some run_id) fresh = if run_id == "" then fresh else run_id

abbrev in_dir : String → String → String
in_dir folder name = concat (folder ∷ "/" ∷ name ∷ [])

-- a call that only returns or raises
abbrev pub at {ℓ} : {A : Type ℓ} → Result A → Vm → Ended A
at (ok a) vm = returned a vm
at (err e) vm = raised e vm

module _ (host : Host) (disk : Disk) (profile : Profile) where
  -- `available`
  abbrev pub available : Bool
  available = disk.has_program profile.binary

  -- The logs are opened, run.json is written, the process is spawned. Where the last raises, the
  -- logs are closed; where one of the others does, a log that is open by then stays open.
  unfoldable pub spawn : QemuRun → Vm → Ended QemuRun
  spawn run vm =
      let logging = record vm { stdout_handle = opened; stderr_handle = opened } in
      if not (host.opens_stdout vm.moment)
      then raised (os_error "qemu.stdout") vm
      else if not (host.opens_stderr vm.moment)
      then raised (os_error "qemu.stderr") (record vm { stray_logs = suc vm.stray_logs })
      else if not (host.records vm.moment)
      then raised (os_error "run.json") (record vm { stray_logs = suc (suc vm.stray_logs) })
      else if host.spawns vm.moment
      then returned run (record (later logging) { process = running })
      else raised (os_error "Popen") (close_logs logging)

  abbrev work_dir : String → String
  work_dir run_id = concat (disk.repo_root ∷ "/artifacts/runs/" ∷ run_id ∷ [])

  abbrev pub run_paths : String → String → RunPaths
  run_paths run_id vars_source = record {
    serial_path = in_dir (work_dir run_id) "serial.socket";
    qmp_path = in_dir (work_dir run_id) "qmp.socket";
    vars_path = in_dir (work_dir run_id) (disk.file_name vars_source);
  }

  -- the run of an id
  abbrev pub prepare : Launch → String → String → Result QemuRun
  prepare l run_id vars_source =
      let paths = run_paths run_id vars_source in
      elim (build_command disk.shown disk.is_file profile l paths) [
        | err e ↦ err e
        | ok command ↦ ok (record {
          run_id = run_id;
          command = command;
          paths = paths;
          work_dir = work_dir run_id;
        })
      ]

  unfoldable pub start : Launch → Option String → Vm → Ended QemuRun
  start l run_id vm =
      if not (disk.is_file l.image)
      then raised (file_not_found l.image) vm
      else if not available
      then raised (file_not_found "QEMU binary is unavailable") vm
      else if not (host.prepares vm.moment)
      then raised (os_error "work directory") vm
      else and_then (at (first_existing disk.is_file profile.firmware_vars_candidates) vm)
          (λ vars_source found.
            if not (host.copies vm.moment)
            then raised (os_error "copyfile") vm
            else and_then
                (at (prepare l (chosen_id run_id (disk.fresh_id vm.moment)) vars_source) found)
                (λ run prepared. spawn run prepared))

  -- the observation of a guest that said the sentinel
  abbrev pub boot_report : QemuRun → List ℕ → BootReport
  boot_report run serial = record {
    status = "ok";
    exit_code = 0;
    stdout = serial;
    booted = true;
    run_id = run.run_id;
    command = run.command;
  }

  abbrev pub boot_launch : String → ℕ → List String → Launch
  boot_launch image seed media = record {
    image = image;
    seed = seed;
    snapshot = true;
    install_iso = none;
    kernel = none;
    initrd = none;
    append = none;
    auxiliary_media = media;
  }

  unfoldable pub boot_check : ℕ → List ℕ → String → ℕ → List String → Vm → Ended BootReport
  boot_check rounds sentinel image seed media vm =
      and_then (start (boot_launch image seed media) none vm) (λ run started.
        finally
          (and_then
            (wait_for_serial host rounds profile.boot_timeout run.paths.serial_path sentinel none
              started)
            (λ serial heard. returned (boot_report run serial) heard))
          (λ over. stop host over))
