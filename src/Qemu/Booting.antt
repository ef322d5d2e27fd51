-- ===== src/Qemu/Booting.antt =====
-- What `boot_check` of src/osbench/qemu.py comes to.
use os_bench.Common.{ℕ, suc, ◌+◌, ◌≤◌, String, ◌≡◌, refl, ◌∙◌, true, false, List, [], none, some}
use os_bench.Common.Result.{Error, ok, timeout_error, os_error}
use os_bench.Qemu.Bytes.{contains}
use os_bench.Qemu.Profile.{Profile}
use os_bench.Qemu.Command.{Launch, build_command}
use os_bench.Qemu.Machine.{Host, Vm, Ended, returned, raised, and_then, finally, stop}
use os_bench.Qemu.Stopping.{IsReleased, stop-Stops}
use os_bench.Qemu.Hearing.{Fault, IsOver, heard}
use os_bench.Qemu.Waiting.{Waits, ready, gave_up, failed, unsaved, wait_for_serial-Waits}
use os_bench.Qemu.Control.{Disk, QemuRun, BootReport, boot_report, boot_launch, boot_check}
use os_bench.Qemu.Starting.{Refusal, Leak, started, refused, leaked, start-Starts}

module _ (host : Host) (disk : Disk) (profile : Profile) where
  -- why a boot check raises and leaves nothing: the guest cannot be started, the sentinel was not
  -- in what it said until the time was over or it exited, the connection failed, or what it said
  -- could not be written
  pub data BootFailure (sentinel : List ℕ) (l : Launch) (error : Error) : Type 0 where
    not_started : Refusal host disk profile l error → BootFailure sentinel l error
    not_ready :
        (from n : ℕ)
        → error ≡ timeout_error "sentinel"
        → contains sentinel (heard host from n) ≡ false
        → IsOver host (host.clock from + profile.boot_timeout) (from + n)
        → BootFailure sentinel l error
    not_connected :
        (run : QemuRun) (vm : Vm)
        → Fault host (host.clock vm.moment + profile.boot_timeout) run.paths.serial_path vm error
        → BootFailure sentinel l error
    not_saved :
        (moment : ℕ)
        → error ≡ os_error "serial log"
        → host.saves moment ≡ false
        → BootFailure sentinel l error

  -- What a boot check comes to: a report with what the guest said, the sentinel in it; an
  -- exception, and nothing of the guest is left; or one of a start that leaves logs open.
  pub data Checks (sentinel : List ℕ) (l : Launch) (vm : Vm) (e : Ended BootReport) : Type 0 where
    passed :
        (run : QemuRun) (from n : ℕ) (after : Vm)
        → e ≡ returned (boot_report host disk profile run (heard host from n)) after
        → build_command disk.shown disk.is_file profile l run.paths ≡ ok run.command
        → contains sentinel (heard host from n) ≡ true
        → after.serial_log ≡ some (heard host from n)
        → IsReleased after
        → after.stray_logs ≡ vm.stray_logs
        → after.clients ≡ vm.clients
        → Checks sentinel l vm e
    broke_off :
        (error : Error) (after : Vm)
        → e ≡ raised error after
        → BootFailure sentinel l error
        → IsReleased after
        → after.stray_logs ≡ vm.stray_logs
        → after.clients ≡ vm.clients
        → Checks sentinel l vm e
    leaks :
        (error : Error) (after : Vm)
        → e ≡ raised error after
        → Leak host disk profile vm.stray_logs error after.stray_logs
        → IsReleased after
        → after.clients ≡ vm.clients
        → Checks sentinel l vm e

  module _ (dies : (moment : ℕ) → host.dies moment ≡ true) (sentinel : List ℕ)
      (some_sentinel : contains sentinel [] ≡ false) (rounds : ℕ)
      (long : (moment : ℕ)
        → host.clock moment + profile.boot_timeout ≤ host.clock (moment + rounds)) where
    waited-Checks :
        (l : Launch) (run : QemuRun) (vm ready_vm : Vm) (waiting : Ended (List ℕ))
        → build_command disk.shown disk.is_file profile l run.paths ≡ ok run.command
        → ready_vm.stray_logs ≡ vm.stray_logs
        → ready_vm.clients ≡ vm.clients
        → Waits host sentinel profile.boot_timeout run.paths.serial_path ready_vm waiting
        → Checks sentinel l vm (
            finally
              (and_then waiting
                (λ serial after. returned (boot_report host disk profile run serial) after))
              (λ over. stop host over))
    waited-Checks l run vm ready_vm waiting built o c (ready from n after r found log alive k) =
        let s = stop-Stops host dies after in
        rw (r, s.returns)
          (passed run from n s.after refl built found (s.serial_log ∙ log) s.releases
            (s.stray_logs ∙ k.stray_logs ∙ o) (s.clients ∙ k.clients ∙ c))
    waited-Checks l run vm ready_vm waiting built o c
          (gave_up from n after r unseen late log over errors j k) =
        let s = stop-Stops host dies after in
        rw (r, s.returns)
          (broke_off (timeout_error "sentinel") s.after refl (not_ready from n refl unseen late)
            s.releases (s.stray_logs ∙ j ∙ o) (s.clients ∙ k ∙ c))
    waited-Checks l run vm ready_vm waiting built o c (failed error after r fault j k) =
        let s = stop-Stops host dies after in
        rw (r, s.returns)
          (broke_off error s.after refl (not_connected run ready_vm fault) s.releases
            (s.stray_logs ∙ j ∙ o) (s.clients ∙ k ∙ c))
    waited-Checks l run vm ready_vm waiting built o c (unsaved moment after full r j k) =
        let s = stop-Stops host dies after in
        rw (r, s.returns)
          (broke_off (os_error "serial log") s.after refl (not_saved moment refl full) s.releases
            (s.stray_logs ∙ j ∙ o) (s.clients ∙ k ∙ c))

    -- `boot_check` ends, whatever the guest and the files do, and leaves no process and no socket
    -- that was not there. It reports exactly what the guest said, and the sentinel is in that; or
    -- it raises, because the guest cannot be started or reached, did not say the sentinel until
    -- its time was over or it exited, or its log could not be written. It leaves no open log
    -- either, but in two cases: where the second log cannot be opened the first one stays open,
    -- and where run.json cannot be written both do. The kernel must end what it is told to kill,
    -- the sentinel not be empty, and the rounds be as many as the boot timeout is long.
    pub boot_check-Checks :
        (image : String) (seed : ℕ) (media : List String) (vm : Vm)
        → IsReleased vm
        → Checks sentinel
            (boot_launch host disk profile image seed media)
            vm
            (boot_check host disk profile (suc rounds) sentinel image seed media vm)
    unfolding boot_check
    boot_check-Checks image seed media vm h =
        let l = boot_launch host disk profile image seed media in
        elim (start-Starts host disk profile l none vm) [
          | refused error after r why kept o c ↦
              rw (r, boot_check) (broke_off error after refl (not_started why) (kept h) o c)
          | leaked error after r why kept c ↦
              rw (r, boot_check) (leaks error after refl why (kept h) c)
          | started run after r built alive out errors o c ↦
              rw (r, boot_check)
                (waited-Checks l run vm after _ built o c (
                  wait_for_serial-Waits host sentinel dies some_sentinel rounds profile.boot_timeout
                    run.paths.serial_path none long after))
        ]
