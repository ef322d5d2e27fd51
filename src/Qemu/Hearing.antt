-- ===== src/Qemu/Hearing.antt =====
-- What the loops of `_connect_unix` and `wait_for_serial` (src/osbench/qemu.py) come to, given that
-- they get as many rounds as their time is long.
use os_bench.Common.{
  ℕ, zero, suc, ◌+◌, ◌≤◌, String, ◌≡◌, ◌≢◌, refl, ◌⊎◌, true, false, List, [], ◌∷◌, ◌++◌, ltb,
  ltb→lt, inl, inr, Bool-cases, arith,
}
use os_bench.Common.Result.{os_error, Error, timeout_error}
use os_bench.Qemu.Machine.{
  Process, absent, running, exited, polled, Host, Received, timed_out, chunk, disconnected, Socket,
  missing, refuses, accepts, Vm, Ended, returned, raised, is_running, later, poll,
}
use os_bench.Qemu.Serial.{exit_error, connect_rounds}

abbrev pub bytes_of : Received → List ℕ
bytes_of timed_out = []
bytes_of (chunk bs) = bs
bytes_of disconnected = []

-- The rest of the state is as before, and so many sockets are open.
pub record Kept (open_clients : ℕ) (before after : Vm) : Type 0 where
  pub stdout_handle : after.stdout_handle ≡ before.stdout_handle
  pub stderr_handle : after.stderr_handle ≡ before.stderr_handle
  pub serial_log : after.serial_log ≡ before.serial_log
  pub stray_logs : after.stray_logs ≡ before.stray_logs
  pub clients : after.clients ≡ open_clients

pub Received-cases :
    (r : Received)
    → ((r ≡ timed_out) ⊎ (r ≡ chunk []))
      ⊎ (((b : ℕ) × (bs : List ℕ) × (r ≡ chunk (b ∷ bs))) ⊎ (r ≡ disconnected))
Received-cases timed_out = inl (inl refl)
Received-cases (chunk []) = inl (inr refl)
Received-cases (chunk (b ∷ bs)) = inr (inl (b, bs, refl))
Received-cases disconnected = inr (inr refl)

Socket-cases : (s : Socket) → ((s ≡ missing) ⊎ (s ≡ refuses)) ⊎ (s ≡ accepts)
Socket-cases missing = inl (inl refl)
Socket-cases refuses = inl (inr refl)
Socket-cases accepts = inr refl

module _ (host : Host) where
  -- what the guest sends in `n` moments from `moment` on
  unfoldable pub heard : ℕ → ℕ → List ℕ
  heard moment zero = []
  heard moment (suc n) = bytes_of (host.receives moment) ++ heard (suc moment) n

  pub poll-Kept : (vm : Vm) → Kept vm.clients vm (poll host vm)
  unfolding poll
  poll-Kept vm = record {
    stdout_handle = refl;
    stderr_handle = refl;
    serial_log = refl;
    stray_logs = refl;
    clients = refl;
  }

  polled-exits :
      (p : Process) (moment : ℕ)
      → is_running p ≡ true
      → is_running (polled host p moment) ≡ false
      → host.exits moment ≡ true
  polled-exits absent moment was over = absurd (cc was)
  polled-exits running moment was over = elim (Bool-cases (host.exits moment)) [
    | inl exits ↦ exits
    | inr stays ↦ absurd (cc (rw (stays) at over))
  ]
  polled-exits (exited how) moment was over = absurd (cc was)

  pub plus_zero : (m : ℕ) → m + 0 ≡ m
  plus_zero m = ground arith

  pub not_before : (t deadline : ℕ) → ltb t deadline ≡ false → deadline ≤ t
  not_before t deadline h = ground arith

  pub poll-moment : (vm : Vm) → (poll host vm).moment ≡ vm.moment
  unfolding poll
  poll-moment vm = refl

  pub next_moment : (m k : ℕ) → suc m + k ≡ m + suc k
  next_moment m k = ground arith

  Kept-later : (vm after : Vm) (n : ℕ) → Kept n (later (poll host vm)) after → Kept n vm after
  unfolding poll
  Kept-later vm after n k = record {
    stdout_handle = k.stdout_handle;
    stderr_handle = k.stderr_handle;
    serial_log = k.serial_log;
    stray_logs = k.stray_logs;
    clients = k.clients;
  }

  -- a process that ends in a poll has exited of itself
  pub poll-exits :
      (vm : Vm)
      → is_running vm.process ≡ true
      → is_running (poll host vm).process ≡ false
      → host.exits vm.moment ≡ true
  unfolding poll
  poll-exits vm was over = polled-exits vm.process vm.moment was over

  -- Nothing accepted at the path, in the moments from one on until the deadline.
  pub record IsUnanswered (deadline : ℕ) (path : String) (start : ℕ) : Type 0 where
    pub moments : ℕ
    pub late : deadline ≤ host.clock (start + moments)
    pub unanswered : (k : ℕ) → suc k ≤ moments → host.socket (start + k) path ≢ accepts

  -- A wait is over: its time is, or the guest has exited of itself.
  abbrev pub IsOver : ℕ → ℕ → Type 0
  IsOver deadline moment = (deadline ≤ host.clock moment) ⊎ ((m : ℕ) × (host.exits m ≡ true))

  -- why a method raises that waits on a guest's socket: nothing accepted in time, the guest that
  -- was running has exited, or the connection broke
  pub data Fault (deadline : ℕ) (path : String) (vm : Vm) (error : Error) : Type 0 where
    unreachable :
        error ≡ timeout_error "connecting"
        → IsUnanswered deadline path vm.moment
        → Fault deadline path vm error
    gone :
        error ≡ exit_error vm.stderr_handle
        → (is_running vm.process ≡ true → (moment : ℕ) × (host.exits moment ≡ true))
        → Fault deadline path vm error
    lost :
        error ≡ os_error "recv"
        → (moment : ℕ) → host.receives moment ≡ disconnected
        → Fault deadline path vm error

  -- what the wait for a socket comes to
  pub data Connects (deadline : ℕ) (path : String) (vm : Vm) (e : Ended (Unit {0})) : Type 0 where
    connected :
        (after : Vm)
        → e ≡ returned tt after
        → Kept (suc vm.clients) vm after
        → is_running after.process ≡ true
        → Connects deadline path vm e
    refused :
        (error : Error) (after : Vm)
        → e ≡ raised error after
        → Kept vm.clients vm after
        → Fault deadline path vm error
        → Connects deadline path vm e

  -- a moment more in which nothing accepted
  IsUnanswered-later :
      (deadline : ℕ) (path : String) (m : ℕ)
      → host.socket m path ≢ accepts
      → IsUnanswered deadline path (suc m)
      → IsUnanswered deadline path m
  IsUnanswered-later deadline path m here h = record {
    moments = suc h.moments;
    late = rw (← next_moment m h.moments) h.late;
    unanswered = before;
  }
    where
      before : (k : ℕ) → suc k ≤ suc h.moments → host.socket (m + k) path ≢ accepts
      before zero bound = rw (plus_zero m) here
      before (suc k) bound = rw (← next_moment m k) (h.unanswered k (ground arith))

  Fault-later :
      (deadline : ℕ) (path : String) (vm : Vm) (error : Error)
      → is_running (poll host vm).process ≡ true
      → host.socket vm.moment path ≢ accepts
      → Fault deadline path (later (poll host vm)) error
      → Fault deadline path vm error
  unfolding poll
  Fault-later deadline path vm error alive here (unreachable e h) =
      unreachable e (IsUnanswered-later deadline path vm.moment here h)
  Fault-later deadline path vm error alive here (gone e h) = gone e (λ was. h alive)
  Fault-later deadline path vm error alive here (lost e m h) = lost e m h

  Connects-later :
      (deadline : ℕ) (path : String) (vm : Vm) (e : Ended (Unit {0}))
      → is_running (poll host vm).process ≡ true
      → host.socket vm.moment path ≢ accepts
      → Connects deadline path (later (poll host vm)) e
      → Connects deadline path vm e
  unfolding poll
  Connects-later deadline path vm e alive here (connected after r k running_after) =
      connected after r (Kept-later vm after (suc vm.clients) k) running_after
  Connects-later deadline path vm e alive here (refused error after r k fault) =
      refused error after r (Kept-later vm after vm.clients k)
        (Fault-later deadline path vm error alive here fault)

  connect_round :
      (k deadline : ℕ) (path : String) (vm : Vm)
      → (ltb (host.clock vm.moment) deadline ≡ true
          → Connects deadline path
              (later (poll host vm))
              (connect_rounds host k deadline path (later (poll host vm))))
      → Connects deadline path vm (connect_rounds host (suc k) deadline path vm)
  unfolding connect_rounds
  connect_round k deadline path vm next = elim (Bool-cases (ltb (host.clock vm.moment) deadline)) [
    | inr late ↦
        refused (timeout_error "connecting") vm (rw (connect_rounds, late) refl)
          (record {
            stdout_handle = refl;
            stderr_handle = refl;
            serial_log = refl;
            stray_logs = refl;
            clients = refl;
          })
          (unreachable refl (record {
            moments = 0;
            late = rw (plus_zero vm.moment) (not_before (host.clock vm.moment) deadline late);
            unanswered = λ k bound. absurd (ground (arith, bound));
          }))
    | inl early ↦ elim (Bool-cases (is_running (poll host vm).process)) [
      | inr over ↦
          refused (exit_error vm.stderr_handle) (poll host vm)
            (rw (connect_rounds, early, over) refl) (poll-Kept vm)
            (gone refl (λ was. (vm.moment, poll-exits vm was over)))
      | inl alive ↦ elim (Socket-cases (host.socket vm.moment path)) [
        | inl (inl there) ↦
            rw (connect_rounds, early, alive, there)
              (Connects-later deadline path vm _ alive (λ same. absurd (cc (there, same)))
                (next early))
        | inl (inr there) ↦
            rw (connect_rounds, early, alive, there)
              (Connects-later deadline path vm _ alive (λ same. absurd (cc (there, same)))
                (next early))
        | inr there ↦
            connected (record (later (poll host vm)) { clients = suc vm.clients })
              (rw (connect_rounds, early, alive, there) refl)
              (let k = poll-Kept vm in
                record {
                  stdout_handle = k.stdout_handle;
                  stderr_handle = k.stderr_handle;
                  serial_log = k.serial_log;
                  stray_logs = k.stray_logs;
                  clients = refl;
                })
              alive
      ]
    ]
  ]

  -- With a round more than it takes until the deadline, `_connect_unix` ends.
  pub connect_rounds-Connects :
      (k deadline : ℕ) (path : String) (vm : Vm)
      → deadline ≤ host.clock (vm.moment + k)
      → Connects deadline path vm (connect_rounds host (suc k) deadline path vm)
  connect_rounds-Connects zero deadline path vm h =
      connect_round zero deadline path vm
        (λ early. absurd (ground (arith, ltb→lt (host.clock vm.moment) deadline early)))
  connect_rounds-Connects (suc k) deadline path vm h =
      connect_round (suc k) deadline path vm (λ early.
        connect_rounds-Connects k deadline path (later (poll host vm))
          (rw (poll-moment vm, next_moment vm.moment k) h))
