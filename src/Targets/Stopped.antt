-- ===== src/Targets/Stopped.antt =====
-- `QemuTarget` of src/osbench/targets.py after a guest that did not boot in time.
use os_bench.Common.{
  true, ◌≢◌, get_or, ℕ, suc, ◌+◌, ◌≤◌, ◌<◌, lt→ltb, String, ◌≡◌, refl, ◌∙◌, ap, Bool, false, List,
  [], ◌∷◌, none, some, arith,
}
use os_bench.Common.Result.{Error, Result, value_error, timeout_error}
use os_bench.Qemu.Bytes.{contains}
use os_bench.Qemu.Profile.{Profile}
use os_bench.Qemu.Machine.{
  Host, Handle, unopened, opened, closed, Vm, Ended, returned, raised, and_then, close_handle,
  is_running, poll,
}
use os_bench.Qemu.Stopping.{poll-is_running, poll-stderr_handle}
use os_bench.Qemu.Serial.{connect_unix, connect_rounds, exit_error}
use os_bench.Qemu.Hearing.{Fault, unreachable, gone, lost}
use os_bench.Qemu.Waiting.{Waits, ready, gave_up, failed, unsaved, wait_for_serial-Waits}
use os_bench.Qemu.Agent.{agent_case}
use os_bench.Qemu.Control.{Disk, QemuRun, boot_launch}
use os_bench.Qemu.Command.{Launch}
use os_bench.Qemu.Starting.{
  Refusal, no_image, no_program, no_directory, no_variables, no_copy, no_command, no_stdout,
  no_process, Leak, no_stderr, no_record, started, refused, leaked, start-Starts,
}
use os_bench.Targets.Guest.{GuestCase, GuestTarget, media, ensure_run, execute}
use os_bench.Targets.Ownership.{TargetState, after_called, case_limit}

-- every case has some time
abbrev pub HaveTime : List GuestCase → Type 0
HaveTime [] = Unit {0}
HaveTime (c ∷ cs) = (0 < case_limit c) × HaveTime cs

-- A run is kept whose process is over and whose log is closed.
pub record IsStopped (s : TargetState) : Type 0 where
  pub run : QemuRun
  pub kept : s.run ≡ some run
  pub over : is_running s.vm.process ≡ false
  pub shut : s.vm.stderr_handle ≡ closed

-- that of a guest that did not say the sentinel in time
abbrev unready : Error
unready = timeout_error "sentinel"

exit_error-other : (handle : Handle) → exit_error handle ≢ unready
exit_error-other unopened h = cc h
exit_error-other opened h = cc h
exit_error-other closed h = cc h

module _ (host : Host) (disk : Disk) (profile : Profile) where
  Fault-other :
      (deadline : ℕ) (path : String) (vm : Vm) {error : Error}
      → Fault host deadline path vm error
      → error ≢ unready
  Fault-other deadline path vm (unreachable e late) h = cc (e, h)
  Fault-other deadline path vm (gone e why) h = exit_error-other vm.stderr_handle (cc (e, h))
  Fault-other deadline path vm (lost e moment broke) h = cc (e, h)

  Refusal-other : (l : Launch) {error : Error} → Refusal host disk profile l error → error ≢ unready
  Refusal-other l (no_image why) h = cc h
  Refusal-other l (no_program why) h = cc h
  Refusal-other l (no_directory moment why) h = cc h
  Refusal-other l (no_variables why) h = cc h
  Refusal-other l (no_copy moment why) h = cc h
  Refusal-other l (no_command paths why) h = cc h
  Refusal-other l (no_stdout moment why) h = cc h
  Refusal-other l (no_process moment why) h = cc h

  Leak-other :
      (before left : ℕ) {error : Error} → Leak host disk profile before error left → error ≢ unready
  Leak-other before left (no_stderr moment why) h = cc h
  Leak-other before left (no_record moment why) h = cc h

raised-error {ℓ} :
    {A : Type ℓ} {e : Ended A} {error : Error} {vm after : Vm}
    → e ≡ raised error vm
    → e ≡ raised unready after
    → error ≡ unready
raised-error r h = cc (r, h)

raised-vm {ℓ} :
    {A : Type ℓ} {e : Ended A} {error : Error} {vm after : Vm}
    → e ≡ raised error vm
    → e ≡ raised unready after
    → vm ≡ after
raised-vm r h = cc (r, h)

module _ {Answer : Type 0} (decode : List ℕ → Result Answer) (host : Host) (disk : Disk)
    (profile : Profile) (exists_path : String → Bool) (sentinel : List ℕ) (rounds : ℕ)
    (target : GuestTarget) where
  -- The cases that follow all raise, and the run is still kept after them.
  abbrev pub Fail : List GuestCase → TargetState → Type 0
  Fail [] s = IsStopped s
  Fail (c ∷ cs) s =
      let called =
        execute decode host disk profile exists_path sentinel (suc rounds) target c s.run s.vm in
      (called.ended ≡ raised (value_error "flush of closed file") (poll host s.vm))
      × Fail cs (after_called called)

  -- one case
  execute-IsStopped :
      (c : GuestCase) (run : QemuRun) (vm : Vm)
      → is_running vm.process ≡ false
      → vm.stderr_handle ≡ closed
      → 0 < case_limit c
      → (execute decode host disk profile exists_path sentinel
          (suc rounds)
          target
          c
          (some run)
          vm).ended
        ≡ raised (value_error "flush of closed file") (poll host vm)
  unfolding execute ensure_run agent_case connect_unix connect_rounds
  execute-IsStopped c run vm over shut some_time =
      let ended = poll-is_running host vm over in
      let early =
        lt→ltb (host.clock vm.moment) (host.clock vm.moment + case_limit c) (ground arith) in
      rw (early, ended, shut) refl

  stopped-Fail :
      (cases : List GuestCase) (run : QemuRun) (vm : Vm)
      → HaveTime cases
      → is_running vm.process ≡ false
      → vm.stderr_handle ≡ closed
      → Fail cases (record { run = some run; vm = vm })
  unfolding execute ensure_run
  stopped-Fail [] run vm times over shut = record {
    run = run;
    kept = refl;
    over = over;
    shut = shut;
  }
  stopped-Fail (c ∷ cs) run vm (some_time, others) over shut =
      let fails = execute-IsStopped c run vm over shut some_time in
      (
        fails,
        rw (fails) (
            stopped-Fail cs run (poll host vm) others (poll-is_running host vm over)
              (poll-stderr_handle host vm ∙ shut)),
      )

  module _ (dies : (moment : ℕ) → host.dies moment ≡ true)
      (some_sentinel : contains sentinel [] ≡ false)
      (long : (moment : ℕ)
        → host.clock moment + profile.boot_timeout ≤ host.clock (moment + rounds)) where
    -- the wait for a guest that was just started
    waited-over :
        (path : String) (run : QemuRun) (vm after : Vm) (waiting : Ended (List ℕ))
        → vm.stderr_handle ≡ opened
        → Waits host sentinel profile.boot_timeout path vm waiting
        → and_then waiting (λ serial heard. returned run heard) ≡ raised unready after
        → (is_running after.process ≡ false) × (after.stderr_handle ≡ closed)
    waited-over path run vm after waiting o (ready from n stop_vm r found log alive kept) h =
        absurd (cc (rw (r) at h))
    waited-over path run vm after waiting o
          (gave_up from n stop_vm r unseen late log over errors j k) h =
        let same = raised-vm refl (rw (r) at h) in
        (rw (← same) over.process, rw (← same) (errors ∙ ap close_handle o))
    waited-over path run vm after waiting o (failed error stop_vm r fault j k) h =
        absurd (Fault-other host disk profile _ path vm fault (raised-error refl (rw (r) at h)))
    waited-over path run vm after waiting o (unsaved moment stop_vm full r j k) h =
        absurd (cc (rw (r) at h))

    -- A guest that is started for a case, and does not say the sentinel in time, is stopped, and
    -- the case raises the timeout. But the target keeps its run: every later case that has any
    -- time fails, by the flush of the closed log, and no guest is started for it. The kernel must
    -- end what it is told to kill, the sentinel not be empty, and the rounds be as many as the
    -- boot timeout is long.
    pub execute-stopped :
        (c : GuestCase) (later_cases : List GuestCase) (vm after : Vm)
        → HaveTime later_cases
        → (ensure_run decode host disk profile exists_path sentinel
            (suc rounds)
            target
            c
            none
            vm).ended
          ≡ raised (timeout_error "sentinel") after
        → let called =
            execute decode host disk profile exists_path sentinel (suc rounds) target c none vm in
          (called.ended ≡ raised (timeout_error "sentinel") after)
          × Fail later_cases (after_called called)
    unfolding execute ensure_run
    execute-stopped c later_cases vm after times h =
        let l = boot_launch host disk profile target.image (get_or c.seed 1) (
          media decode host disk profile exists_path sentinel (suc rounds) target
            target.payload_iso) in
        elim (start-Starts host disk profile l none vm) [
          | started run ready_vm r built alive out errors o same ↦
              let stuck = rw (r) at h in
              let (over, shut) =
                waited-over run.paths.serial_path run ready_vm after _ errors
                  (wait_for_serial-Waits host sentinel dies some_sentinel rounds
                    profile.boot_timeout run.paths.serial_path none long ready_vm)
                  stuck in
              rw (r, stuck) (refl, stopped-Fail later_cases run after times over shut)
          | refused error ready_vm r why kept o same ↦
              absurd (Refusal-other host disk profile l why (raised-error refl (rw (r) at h)))
          | leaked error ready_vm r why kept same ↦
              absurd (Leak-other host disk profile _ _ why (raised-error refl (rw (r) at h)))
        ]
