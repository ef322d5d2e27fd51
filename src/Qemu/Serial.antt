-- ===== src/Qemu/Serial.antt =====
-- `_connect_unix` and `wait_for_serial` of src/osbench/qemu.py. Each loop runs for so many
-- rounds; `Hearing` shows how many are enough.
use os_bench.Common.{
  ℕ, zero, suc, ◌+◌, String, List, [], ◌∷◌, ◌++◌, Option, none, some, ltb, if◌then◌else◌,
}
use os_bench.Common.Result.{Error, runtime_error, timeout_error, os_error, value_error}
use os_bench.Qemu.Bytes.{contains}
use os_bench.Qemu.Machine.{
  Host, Received, timed_out, chunk, disconnected, missing, refuses, accepts, Handle, unopened,
  opened, closed, Vm, Ended, returned, raised, hung, and_then, finally, is_running, later,
  close_client, poll, stop,
}

-- The guest is found to have exited: its stderr is flushed, which raises on a closed file, and
-- quoted.
abbrev pub exit_error : Handle → Error
exit_error unopened = runtime_error "QEMU exited before socket became available"
exit_error opened = runtime_error "QEMU exited before socket became available"
exit_error closed = value_error "flush of closed file"

-- `timeout or default`
abbrev pub or_default : Option ℕ → ℕ → ℕ
or_default none default = default
or_default (some zero) default = default
or_default (some (suc n)) default = suc n

-- the rest of a round of the wait for the sentinel, with what `recv` gave
abbrev pub hear : List ℕ → Received → Vm → (List ℕ → Ended (Unit {0})) → Ended (Unit {0})
hear sentinel timed_out vm rest = rest vm.buffer
hear sentinel (chunk []) vm rest = rest vm.buffer
hear sentinel (chunk (b ∷ bs)) vm rest =
    let buffer = vm.buffer ++ b ∷ bs in
    if contains sentinel buffer then returned tt (record vm { buffer = buffer }) else rest buffer
hear sentinel disconnected vm rest = raised (os_error "recv") vm

module _ (host : Host) where
  -- the `finally` of the wait; where the log cannot be written, that is raised
  unfoldable pub save_log : Vm → Ended (Unit {0})
  save_log vm =
      if host.saves vm.moment
      then returned tt (record (later (close_client vm)) { serial_log = some vm.buffer })
      else raised (os_error "serial log") (later (close_client vm))

  unfoldable pub connect_rounds : ℕ → ℕ → String → Vm → Ended (Unit {0})
  connect_rounds zero deadline path vm = hung vm
  connect_rounds (suc rounds) deadline path vm =
      let seen = poll host vm in
      let rest = connect_rounds rounds deadline path (later seen) in
      if ltb (host.clock vm.moment) deadline
      then if is_running seen.process
        then elim (host.socket vm.moment path) [
          | missing ↦ rest
          | refuses ↦ rest
          | accepts ↦ returned tt (record (later seen) { clients = suc vm.clients })
        ]
        else raised (exit_error vm.stderr_handle) seen
      else raised (timeout_error "connecting") vm

  unfoldable pub connect_unix : ℕ → String → ℕ → Vm → Ended (Unit {0})
  connect_unix rounds path timeout vm =
      connect_rounds rounds (host.clock vm.moment + timeout) path vm

  -- the loop of the wait
  unfoldable pub read_rounds : ℕ → List ℕ → ℕ → Vm → Ended (Unit {0})
  read_rounds zero sentinel deadline vm = hung vm
  read_rounds (suc rounds) sentinel deadline vm =
      let seen = poll host vm in
      if ltb (host.clock vm.moment) deadline
      then if is_running seen.process
        then hear sentinel (host.receives vm.moment) (later seen) (λ buffer.
          read_rounds rounds sentinel deadline (record (later seen) { buffer = buffer }))
        else returned tt seen
      else returned tt vm

  -- after the loop: the bytes, or the guest is stopped
  unfoldable pub require_sentinel : List ℕ → Vm → Ended (List ℕ)
  require_sentinel sentinel vm =
      if contains sentinel vm.buffer
      then returned vm.buffer vm
      else and_then (stop host vm) (λ done stopped. raised (timeout_error "sentinel") stopped)

  -- `boot_timeout` is the profile's; `path` is the serial socket's
  unfoldable pub wait_for_serial : ℕ → ℕ → String → List ℕ → Option ℕ → Vm → Ended (List ℕ)
  wait_for_serial rounds boot_timeout path sentinel timeout vm =
      let limit = or_default timeout boot_timeout in
      and_then (connect_unix rounds path limit vm) (λ client connected.
        and_then
          (finally
            (read_rounds rounds sentinel (host.clock connected.moment + limit)
              (record connected { buffer = [] }))
            save_log)
          (λ done read. require_sentinel sentinel read))
