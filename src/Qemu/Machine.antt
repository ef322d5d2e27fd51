-- ===== src/Qemu/Machine.antt =====
-- The state of one guest, from the variables of `QemuRun` (src/osbench/qemu.py) and what the
-- host's kernel keeps of it, and the methods that end it: `stop`, `power_cut`, `_close_logs`.
use os_bench.Common.{ℕ, suc, ◌-◌, String, Bool, true, false, List, Option, if◌then◌else◌}
use os_bench.Common.Result.{Error, timeout_expired}

-- what one `recv` gives: a timeout, some bytes (none at the end of the stream) or an `OSError`
pub data Received : Type 0 where
  timed_out : Received
  chunk : List ℕ → Received
  disconnected : Received

-- what a `connect` to a path meets
pub data Socket : Type 0 where
  missing refuses accepts : Socket

-- What the host does, by moment. The code's questions in one round of a loop, to the clock, the
-- process and the socket, are of one moment; times are in nanoseconds.
pub record Host : Type 0 where
  pub clock : ℕ → ℕ
  -- whether the guest that still runs is found to have exited of itself
  pub exits : ℕ → Bool
  pub socket : ℕ → String → Socket
  pub receives : ℕ → Received
  -- whether the serial log is written
  pub saves : ℕ → Bool
  -- whether `sendall` gets the request through
  pub sends : ℕ → Bool
  -- whether `start` gets through the directory and the stale sockets, the copy of the variables,
  -- the two `open`s of the logs, and the writing of run.json
  pub prepares : ℕ → Bool
  pub copies : ℕ → Bool
  pub opens_stdout : ℕ → Bool
  pub opens_stderr : ℕ → Bool
  pub records : ℕ → Bool
  -- whether `Popen` returns
  pub spawns : ℕ → Bool
  -- whether the process ends in time after `terminate` and after `kill`
  pub terminates : ℕ → Bool
  pub dies : ℕ → Bool

pub data Ending : Type 0 where
  by_itself terminated killed : Ending

pub data Process : Type 0 where
  absent running : Process
  exited : Ending → Process

pub data Handle : Type 0 where
  unopened opened closed : Handle

pub record Vm : Type 0 where
  pub moment : ℕ
  pub process : Process
  pub stdout_handle : Handle
  pub stderr_handle : Handle
  -- the logs that a start opened which then raised, and which nothing closes
  pub stray_logs : ℕ
  -- the sockets to the guest that are open
  pub clients : ℕ
  -- the local variable of that name in the method that reads
  pub buffer : List ℕ
  pub serial_log : Option (List ℕ)

-- A call returns or raises, or is still in a loop when the rounds that are looked at are over.
pub data Ended {ℓ} (A : Type ℓ) : Type ℓ where
  returned : A → Vm → Ended A
  raised : Error → Vm → Ended A
  hung : Vm → Ended A

-- the statements after a call
abbrev pub and_then {ℓ κ} : {A : Type ℓ} {B : Type κ} → Ended A → (A → Vm → Ended B) → Ended B
and_then (returned a vm) next = next a vm
and_then (raised e vm) next = raised e vm
and_then (hung vm) next = hung vm

-- `try` with a `finally`: an exception of the latter takes the place of what the former came to
abbrev pub finally {ℓ} : {A : Type ℓ} → Ended A → (Vm → Ended (Unit {0})) → Ended A
finally (returned a vm) cleanup = and_then (cleanup vm) (λ done after. returned a after)
finally (raised e vm) cleanup = and_then (cleanup vm) (λ done after. raised e after)
finally (hung vm) cleanup = hung vm

abbrev pub vm_of {ℓ} : {A : Type ℓ} → Ended A → Vm
vm_of (returned a vm) = vm
vm_of (raised e vm) = vm
vm_of (hung vm) = vm

abbrev pub is_hung {ℓ} : {A : Type ℓ} → Ended A → Bool
is_hung (returned a vm) = false
is_hung (raised e vm) = false
is_hung (hung vm) = true

abbrev pub is_running : Process → Bool
is_running absent = false
is_running running = true
is_running (exited how) = false

-- the next moment
abbrev pub later : Vm → Vm
later vm = record vm { moment = suc vm.moment }

-- `if not handle.closed: handle.close()`
abbrev pub close_handle : Handle → Handle
close_handle unopened = unopened
close_handle opened = closed
close_handle closed = closed

unfoldable pub close_logs : Vm → Vm
close_logs vm = record vm {
  stdout_handle = close_handle vm.stdout_handle;
  stderr_handle = close_handle vm.stderr_handle;
}

-- `client.close()`
abbrev pub close_client : Vm → Vm
close_client vm = record vm { clients = vm.clients - 1 }

module _ (host : Host) where
  -- the process as `process.poll()` finds it
  abbrev pub polled : Process → ℕ → Process
  polled absent moment = absent
  polled running moment = if host.exits moment then exited by_itself else running
  polled (exited how) moment = exited how

  unfoldable pub poll : Vm → Vm
  poll vm = record vm { process = polled vm.process vm.moment }

  -- `process.kill()`, then `process.wait(timeout=5)`
  unfoldable pub kill : Vm → Ended (Unit {0})
  kill vm =
      if host.dies vm.moment
      then returned tt (record (later vm) { process = exited killed })
      else raised (timeout_expired "wait") (later vm)

  -- `process.terminate()` and, after the time for a shutdown, `kill`
  unfoldable pub terminate : Vm → Ended (Unit {0})
  terminate vm =
      if host.terminates vm.moment
      then returned tt (record (later vm) { process = exited terminated })
      else kill (later vm)

  unfoldable pub stop : Vm → Ended (Unit {0})
  stop vm =
      let seen = poll vm in
      and_then (if is_running seen.process then terminate seen else returned tt seen)
        (λ done after. returned tt (close_logs after))

  unfoldable pub power_cut : Vm → Ended (Unit {0})
  power_cut vm =
      let seen = poll vm in
      and_then (if is_running seen.process then kill seen else returned tt seen)
        (λ done after. returned tt (close_logs after))
