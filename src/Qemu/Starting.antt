-- ===== src/Qemu/Starting.antt =====
-- What `start` of src/osbench/qemu.py comes to.
use os_bench.Common.{
  ℕ, suc, String, ◌≡◌, refl, ◌∙◌, ap, Bool, true, false, List, [], ◌∷◌, Option, inl, inr,
  Bool-cases,
}
use os_bench.Common.Result.{Error, Result-cases, ok, err, file_not_found, os_error}
use os_bench.Qemu.Profile.{Profile}
use os_bench.Qemu.Command.{RunPaths, Launch, first_existing, build_command}
use os_bench.Qemu.Machine.{
  Host, opened, Vm, Ended, returned, raised, and_then, is_running, close_logs,
}
use os_bench.Qemu.Stopping.{IsReleased}
use os_bench.Qemu.Control.{Disk, QemuRun, chosen_id, at, spawn, run_paths, prepare, start}

abbrev unfound : Error
unfound = file_not_found "None of the configured files exist"

first_existing-error :
    (is_file : String → Bool) (candidates : List String) {error : Error}
    → first_existing is_file candidates ≡ err error
    → error ≡ unfound
first_existing-error is_file [] h = cc h
first_existing-error is_file (c ∷ cs) h = elim (Bool-cases (is_file c)) [
  | inl there ↦ absurd (cc (rw (there) at h))
  | inr missing ↦ first_existing-error is_file cs (rw (missing) at h)
]

build_command-error :
    (shown : ℕ → String) (is_file : String → Bool) (profile : Profile) (l : Launch)
    (paths : RunPaths) {error : Error}
    → build_command shown is_file profile l paths ≡ err error
    → error ≡ unfound
unfolding build_command
build_command-error shown is_file profile l paths h =
    elim (Result-cases (first_existing is_file profile.firmware_code_candidates)) [
      | inl (code, good) ↦ absurd (cc (rw (good) at h))
      | inr (error, bad) ↦
          let same = first_existing-error is_file profile.firmware_code_candidates bad in
          cc (rw (bad) at h, same)
    ]

module _ (host : Host) (disk : Disk) (profile : Profile) where
  -- why a start raises and leaves nothing
  pub data Refusal (l : Launch) : Error → Type 0 where
    no_image : disk.is_file l.image ≡ false → Refusal l (file_not_found l.image)
    no_program :
        disk.has_program profile.binary ≡ false
        → Refusal l (file_not_found "QEMU binary is unavailable")
    no_directory :
        (moment : ℕ) → host.prepares moment ≡ false → Refusal l (os_error "work directory")
    no_variables :
        first_existing disk.is_file profile.firmware_vars_candidates ≡ err unfound
        → Refusal l unfound
    no_copy : (moment : ℕ) → host.copies moment ≡ false → Refusal l (os_error "copyfile")
    no_command :
        (paths : RunPaths)
        → build_command disk.shown disk.is_file profile l paths ≡ err unfound
        → Refusal l unfound
    no_stdout : (moment : ℕ) → host.opens_stdout moment ≡ false → Refusal l (os_error "qemu.stdout")
    no_process : (moment : ℕ) → host.spawns moment ≡ false → Refusal l (os_error "Popen")

  -- why a start raises and leaves open logs, with the number of these before and after
  pub data Leak (before : ℕ) : Error → ℕ → Type 0 where
    no_stderr :
        (moment : ℕ)
        → host.opens_stderr moment ≡ false
        → Leak before (os_error "qemu.stderr") (suc before)
    no_record :
        (moment : ℕ)
        → host.records moment ≡ false
        → Leak before (os_error "run.json") (suc (suc before))

  -- What a start comes to: a guest that runs the command that is built for the launch, with open
  -- logs; or an exception, and then nothing new is held; or an exception that leaves logs open.
  pub data Starts (l : Launch) (vm : Vm) (e : Ended QemuRun) : Type 0 where
    started :
        (run : QemuRun) (after : Vm)
        → e ≡ returned run after
        → build_command disk.shown disk.is_file profile l run.paths ≡ ok run.command
        → is_running after.process ≡ true
        → after.stdout_handle ≡ opened
        → after.stderr_handle ≡ opened
        → after.stray_logs ≡ vm.stray_logs
        → after.clients ≡ vm.clients
        → Starts l vm e
    refused :
        (error : Error) (after : Vm)
        → e ≡ raised error after
        → Refusal l error
        → (IsReleased vm → IsReleased after)
        → after.stray_logs ≡ vm.stray_logs
        → after.clients ≡ vm.clients
        → Starts l vm e
    leaked :
        (error : Error) (after : Vm)
        → e ≡ raised error after
        → Leak vm.stray_logs error after.stray_logs
        → (IsReleased vm → IsReleased after)
        → after.clients ≡ vm.clients
        → Starts l vm e

  stray_logs-IsReleased :
      (vm : Vm) (n : ℕ) → IsReleased vm → IsReleased (record vm { stray_logs = n })
  stray_logs-IsReleased vm n h = record {
    process = h.process;
    stdout_handle = h.stdout_handle;
    stderr_handle = h.stderr_handle;
  }

  spawn-Starts :
      (l : Launch) (run : QemuRun) (vm : Vm)
      → build_command disk.shown disk.is_file profile l run.paths ≡ ok run.command
      → Starts l vm (spawn host disk profile run vm)
  unfolding spawn close_logs
  spawn-Starts l run vm built = elim (Bool-cases (host.opens_stdout vm.moment)) [
    | inr bad ↦
        rw (bad)
          (refused (os_error "qemu.stdout") vm refl (no_stdout vm.moment bad) (λ h. h) refl refl)
    | inl out ↦ elim (Bool-cases (host.opens_stderr vm.moment)) [
      | inr bad ↦
          rw (out, bad)
            (leaked (os_error "qemu.stderr") (record vm { stray_logs = suc vm.stray_logs }) refl
              (no_stderr vm.moment bad) (stray_logs-IsReleased vm _) refl)
      | inl errors ↦ elim (Bool-cases (host.records vm.moment)) [
        | inr bad ↦
            rw (out, errors, bad)
              (leaked (os_error "run.json") (record vm { stray_logs = suc (suc vm.stray_logs) })
                refl (no_record vm.moment bad) (stray_logs-IsReleased vm _) refl)
        | inl written ↦ elim (Bool-cases (host.spawns vm.moment)) [
          | inl there ↦
              rw (out, errors, written, there) (started run _ refl built refl refl refl refl refl)
          | inr lost ↦
              rw (out, errors, written, lost)
                (refused (os_error "Popen") _ refl (no_process vm.moment lost)
                  (λ h. record { process = h.process; stdout_handle = refl; stderr_handle = refl })
                  refl refl)
        ]
      ]
    ]
  ]

  prepared-Starts :
      (l : Launch) (run_id vars_source : String) (vm : Vm)
      → Starts l vm (
          and_then
            (at (prepare host disk profile l run_id vars_source) vm)
            (λ run prepared. spawn host disk profile run prepared))
  prepared-Starts l run_id vars_source vm =
      let paths = run_paths host disk profile run_id vars_source in
      elim (Result-cases (build_command disk.shown disk.is_file profile l paths)) [
        | inr (error, bad) ↦
            let known =
              bad ∙ ap err (build_command-error disk.shown disk.is_file profile l paths bad) in
            rw (known, and_then, at, prepare)
              (refused unfound vm refl (no_command paths known) (λ h. h) refl refl)
        | inl (command, good) ↦ rw (good, and_then, at, prepare) (spawn-Starts l _ vm good)
      ]

  -- `start` gives a running guest, holds nothing new, or has left a log open.
  pub start-Starts :
      (l : Launch) (run_id : Option String) (vm : Vm)
      → Starts l vm (start host disk profile l run_id vm)
  unfolding start
  start-Starts l run_id vm = elim (Bool-cases (disk.is_file l.image)) [
    | inr missing ↦
        rw (missing, start)
          (refused (file_not_found l.image) vm refl (no_image missing) (λ h. h) refl refl)
    | inl there ↦ elim (Bool-cases (disk.has_program profile.binary)) [
      | inr missing ↦
          rw (there, missing, start)
            (refused (file_not_found "QEMU binary is unavailable") vm refl (no_program missing)
              (λ h. h) refl refl)
      | inl here ↦ elim (Bool-cases (host.prepares vm.moment)) [
        | inr bad ↦
            rw (there, here, bad, start)
              (refused (os_error "work directory") vm refl (no_directory vm.moment bad) (λ h. h)
                refl refl)
        | inl made ↦
            elim (Result-cases (first_existing disk.is_file profile.firmware_vars_candidates)) [
              | inr (error, bad) ↦
                  let known =
                    bad
                    ∙ ap err
                        (first_existing-error disk.is_file profile.firmware_vars_candidates bad) in
                  rw (there, here, made, known, start)
                    (refused unfound vm refl (no_variables known) (λ h. h) refl refl)
              | inl (source, good) ↦ elim (Bool-cases (host.copies vm.moment)) [
                | inr bad ↦
                    rw (there, here, made, good, bad, start)
                      (refused (os_error "copyfile") vm refl (no_copy vm.moment bad) (λ h. h) refl
                        refl)
                | inl copied ↦
                    rw (there, here, made, good, copied, start)
                      (prepared-Starts l (chosen_id run_id (disk.fresh_id vm.moment)) source vm)
              ]
            ]
      ]
    ]
  ]
