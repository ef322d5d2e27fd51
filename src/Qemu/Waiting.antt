-- ===== src/Qemu/Waiting.antt =====
-- `wait_for_serial` of src/osbench/qemu.py as a whole.
use os_bench.Common.{
  ℕ, suc, ◌+◌, ◌-◌, ◌≤◌, String, ◌≡◌, refl, ◌∙◌, ap, true, false, List, [], Option, some, inl, inr,
  Bool-cases, arith,
}
use os_bench.Common.Result.{os_error, Error, timeout_error}
use os_bench.Qemu.Bytes.{contains}
use os_bench.Qemu.Machine.{
  later, close_handle, Host, Vm, Ended, returned, raised, close_client, and_then, finally,
  is_running,
}
use os_bench.Qemu.Stopping.{IsReleased, stop-Stops}
use os_bench.Qemu.Serial.{or_default, save_log, connect_unix, require_sentinel, wait_for_serial}
use os_bench.Qemu.Hearing.{
  Kept, heard, Fault, lost, IsOver, connected, refused, connect_rounds-Connects,
}
use os_bench.Qemu.Listening.{Listens, over, broke, read_rounds-Listens}

module _ (host : Host) (sentinel : List ℕ) where
  -- What the wait comes to. It returns what it heard from some moment on, in which the sentinel
  -- is, from a guest that runs; or the sentinel was not in what it heard until its time was over
  -- or the guest exited, and nothing is left of the guest; or the connection failed, or what was
  -- heard could not be written. It has closed its socket.
  pub data Waits (limit : ℕ) (path : String) (vm : Vm) (e : Ended (List ℕ)) : Type 0 where
    ready :
        (start n : ℕ) (after : Vm)
        → e ≡ returned (heard host start n) after
        → contains sentinel (heard host start n) ≡ true
        → after.serial_log ≡ some (heard host start n)
        → is_running after.process ≡ true
        → Kept vm.clients (record vm { serial_log = after.serial_log }) after
        → Waits limit path vm e
    gave_up :
        (start n : ℕ) (after : Vm)
        → e ≡ raised (timeout_error "sentinel") after
        → contains sentinel (heard host start n) ≡ false
        → IsOver host (host.clock start + limit) (start + n)
        → after.serial_log ≡ some (heard host start n)
        → IsReleased after
        → after.stderr_handle ≡ close_handle vm.stderr_handle
        → after.stray_logs ≡ vm.stray_logs
        → after.clients ≡ vm.clients
        → Waits limit path vm e
    failed :
        (error : Error) (after : Vm)
        → e ≡ raised error after
        → Fault host (host.clock vm.moment + limit) path vm error
        → after.stray_logs ≡ vm.stray_logs
        → after.clients ≡ vm.clients
        → Waits limit path vm e
    unsaved :
        (moment : ℕ) (after : Vm)
        → host.saves moment ≡ false
        → e ≡ raised (os_error "serial log") after
        → after.stray_logs ≡ vm.stray_logs
        → after.clients ≡ vm.clients
        → Waits limit path vm e

  -- the state after the `finally`
  abbrev saved : Vm → Vm
  saved vm = record (later (close_client vm)) { serial_log = some vm.buffer }

  one_less : (n m : ℕ) → n ≡ suc m → n - 1 ≡ m
  one_less n m h = ground arith

  module _ (dies : (moment : ℕ) → host.dies moment ≡ true)
      (some_sentinel : contains sentinel [] ≡ false) where
    -- what follows the loop
    require-Waits :
        (limit : ℕ) (path : String) (vm connection read : Vm) (n : ℕ)
        → read.buffer ≡ heard host connection.moment n
        → Kept (suc vm.clients) vm connection
        → Kept connection.clients connection read
        → (contains sentinel read.buffer ≡ true → is_running read.process ≡ true)
        → (contains sentinel read.buffer ≡ false
            → IsOver host (host.clock connection.moment + limit) (connection.moment + n))
        → Waits limit path vm (
            and_then
              (finally (returned (tt {0}) read) (save_log host))
              (λ done after. require_sentinel host sentinel after))
    unfolding save_log require_sentinel
    require-Waits limit path vm connection read n b k j alive ends =
        let clients : read.clients - 1 ≡ vm.clients =
          one_less read.clients vm.clients (j.clients ∙ k.clients) in
        elim (Bool-cases (host.saves read.moment)) [
          | inr full ↦ rw (full) (
              unsaved read.moment (later (close_client read)) full refl
                (j.stray_logs ∙ k.stray_logs) clients)
          | inl fits ↦ elim (Bool-cases (contains sentinel read.buffer)) [
            | inl found ↦
                rw (fits, found)
                  (ready connection.moment n (saved read) (rw (b) refl) (rw (← b) found) (ap some b)
                    (alive found)
                    (record {
                      stdout_handle = j.stdout_handle ∙ k.stdout_handle;
                      stderr_handle = j.stderr_handle ∙ k.stderr_handle;
                      serial_log = refl;
                      stray_logs = j.stray_logs ∙ k.stray_logs;
                      clients = clients;
                    }))
            | inr unseen ↦
                let s = stop-Stops host dies (saved read) in
                rw (fits, unseen, s.returns)
                  (gave_up connection.moment n s.after refl (rw (← b) unseen) (ends unseen)
                    (s.serial_log ∙ ap some b) s.releases
                    (s.stderr_handle ∙ ap close_handle (j.stderr_handle ∙ k.stderr_handle))
                    (s.stray_logs ∙ j.stray_logs ∙ k.stray_logs) (s.clients ∙ clients))
          ]
        ]

    -- The loop's end and the `finally`.
    listened-Waits :
        (limit : ℕ) (path : String) (vm connection : Vm) (reading : Ended (Unit {0}))
        → connection.buffer ≡ []
        → Kept (suc vm.clients) vm connection
        → is_running connection.process ≡ true
        → Listens host sentinel (host.clock connection.moment + limit) connection reading
        → Waits limit path vm (
            and_then
              (finally reading (save_log host))
              (λ done after. require_sentinel host sentinel after))
    unfolding save_log
    listened-Waits limit path vm connection reading b k active (over n after r grown j alive ends) =
        rw (r) (
          require-Waits limit path vm connection after n (rw (b) at grown) k j
            (λ found. alive found (rw (b) some_sentinel)) (λ missing. ends missing active))
    listened-Waits limit path vm connection reading b k active (broke lost_at after gone_at r j) =
        let clients = one_less after.clients vm.clients (j.clients ∙ k.clients) in
        elim (Bool-cases (host.saves after.moment)) [
          | inl fits ↦
              rw (r, fits)
                (failed (os_error "recv") (saved after) refl (lost refl lost_at gone_at)
                  (j.stray_logs ∙ k.stray_logs) clients)
          | inr full ↦
              rw (r, full)
                (unsaved after.moment (later (close_client after)) full refl
                  (j.stray_logs ∙ k.stray_logs) clients)
        ]

    pub wait_for_serial-Waits :
        (rounds boot_timeout : ℕ) (path : String) (timeout : Option ℕ)
        → ((moment : ℕ)
            → host.clock moment + or_default timeout boot_timeout ≤ host.clock (moment + rounds))
        → (vm : Vm)
        → Waits
            (or_default timeout boot_timeout)
            path
            vm
            (wait_for_serial host (suc rounds) boot_timeout path sentinel timeout vm)
    unfolding wait_for_serial connect_unix
    wait_for_serial-Waits rounds boot_timeout path timeout long vm =
        let limit = or_default timeout boot_timeout in
        elim (connect_rounds-Connects host rounds (host.clock vm.moment + limit) path vm
          (long vm.moment)) [
            | refused error after r k fault ↦
                rw (r, wait_for_serial) (failed error after refl fault k.stray_logs k.clients)
            | connected after r k alive ↦
                rw (r, wait_for_serial)
                  (listened-Waits limit path vm (record after { buffer = [] }) _ refl
                    (record {
                      stdout_handle = k.stdout_handle;
                      stderr_handle = k.stderr_handle;
                      serial_log = k.serial_log;
                      stray_logs = k.stray_logs;
                      clients = k.clients;
                    })
                    alive
                    (read_rounds-Listens host sentinel rounds (host.clock after.moment + limit)
                      (record after { buffer = [] }) (long after.moment)))
          ]
