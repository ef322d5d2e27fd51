-- ===== src/Qemu/Stopping.antt =====
-- `stop` and `power_cut` of src/osbench/qemu.py release what a guest holds.
use os_bench.Common.{ap, ℕ, ◌≡◌, refl, Bool, true, false, inl, inr, Bool-cases}
use os_bench.Qemu.Machine.{
  Host, Process, absent, running, exited, Handle, unopened, opened, closed, Vm, Ended, returned,
  is_running, close_handle, close_logs, poll, polled, kill, terminate, stop, power_cut,
}

abbrev pub is_open : Handle → Bool
is_open unopened = false
is_open opened = true
is_open closed = false

-- nothing is left of the guest but files
pub record IsReleased (vm : Vm) : Type 0 where
  pub process : is_running vm.process ≡ false
  pub stdout_handle : is_open vm.stdout_handle ≡ false
  pub stderr_handle : is_open vm.stderr_handle ≡ false

-- A method that only ends the guest: it returns, nothing of the guest is left, and the rest of
-- the state is as before.
pub record Stops (before : Vm) (call : Ended (Unit {0})) : Type 0 where
  pub after : Vm
  pub returns : call ≡ returned tt after
  pub releases : IsReleased after
  pub stderr_handle : after.stderr_handle ≡ close_handle before.stderr_handle
  pub stray_logs : after.stray_logs ≡ before.stray_logs
  pub clients : after.clients ≡ before.clients
  pub buffer : after.buffer ≡ before.buffer
  pub serial_log : after.serial_log ≡ before.serial_log

close_handle-is_open : (h : Handle) → is_open (close_handle h) ≡ false
close_handle-is_open unopened = refl
close_handle-is_open opened = refl
close_handle-is_open closed = refl

close_logs-IsReleased : (vm : Vm) → is_running vm.process ≡ false → IsReleased (close_logs vm)
unfolding close_logs
close_logs-IsReleased vm over = record {
  process = over;
  stdout_handle = close_handle-is_open vm.stdout_handle;
  stderr_handle = close_handle-is_open vm.stderr_handle;
}

-- the rest of both methods, once the process is over
closes :
    (before after : Vm)
    → is_running after.process ≡ false
    → after.stderr_handle ≡ before.stderr_handle
    → after.stray_logs ≡ before.stray_logs
    → after.clients ≡ before.clients
    → after.buffer ≡ before.buffer
    → after.serial_log ≡ before.serial_log
    → Stops before (returned tt (close_logs after))
unfolding close_logs
closes before after over h s c b l = record {
  after = close_logs after;
  returns = refl;
  releases = close_logs-IsReleased after over;
  stderr_handle = ap close_handle h;
  stray_logs = s;
  clients = c;
  buffer = b;
  serial_log = l;
}

-- a process that is over stays so
polled-is_running :
    (host : Host) (p : Process) (moment : ℕ)
    → is_running p ≡ false
    → is_running (polled host p moment) ≡ false
polled-is_running host absent moment h = refl
polled-is_running host running moment h = absurd (cc h)
polled-is_running host (exited how) moment h = refl

pub poll-is_running :
    (host : Host) (vm : Vm)
    → is_running vm.process ≡ false
    → is_running (poll host vm).process ≡ false
unfolding poll
poll-is_running host vm h = polled-is_running host vm.process vm.moment h

pub poll-stderr_handle : (host : Host) (vm : Vm) → (poll host vm).stderr_handle ≡ vm.stderr_handle
unfolding poll
poll-stderr_handle host vm = refl

module _ (host : Host) (dies : (moment : ℕ) → host.dies moment ≡ true) where
  -- `stop` ends the guest, also one that does not heed the request to terminate, closes its logs
  -- and changes nothing else, given that the kernel ends what it is told to kill.
  pub stop-Stops : (vm : Vm) → Stops vm (stop host vm)
  unfolding stop terminate kill poll
  stop-Stops vm = elim (Bool-cases (is_running (poll host vm).process)) [
    | inr over ↦ rw (over) (closes vm (poll host vm) over refl refl refl refl refl)
    | inl alive ↦ elim (Bool-cases (host.terminates vm.moment)) [
      | inl heeded ↦ rw (alive, heeded) (closes vm _ refl refl refl refl refl refl)
      | inr ignored ↦ rw (alive, ignored, dies _) (closes vm _ refl refl refl refl refl refl)
    ]
  ]

  -- `power_cut` likewise, without a request to terminate.
  pub power_cut-Stops : (vm : Vm) → Stops vm (power_cut host vm)
  unfolding power_cut kill poll
  power_cut-Stops vm = elim (Bool-cases (is_running (poll host vm).process)) [
    | inr over ↦ rw (over) (closes vm (poll host vm) over refl refl refl refl refl)
    | inl alive ↦ rw (alive, dies _) (closes vm _ refl refl refl refl refl refl)
  ]
