-- ===== src/Qemu/Listening.antt =====
-- What the reading loop of `wait_for_serial` (src/osbench/qemu.py) comes to.
use mathlib.Core.List.{append-nil, append_assoc}
use os_bench.Common.{
  ℕ, zero, suc, ◌+◌, ◌≤◌, ◌≡◌, refl, sym, ◌∙◌, ap, true, false, List, [], ◌∷◌, ◌++◌, ltb, ltb→lt,
  inl, inr, Bool-cases, arith,
}
use os_bench.Common.Result.{os_error}
use os_bench.Qemu.Bytes.{contains}
use os_bench.Qemu.Machine.{
  disconnected, Host, Received, timed_out, chunk, Vm, Ended, returned, raised, is_running, later,
  poll,
}
use os_bench.Qemu.Serial.{hear, read_rounds}
use os_bench.Qemu.Hearing.{
  bytes_of, Kept, Received-cases, heard, poll-Kept, poll-moment, next_moment, IsOver, plus_zero,
  not_before, poll-exits,
}

module _ (host : Host) (sentinel : List ℕ) where
  -- What the loop comes to: the buffer has grown by what was heard since, and if it is by that
  -- that it has the sentinel, then the guest was running.
  pub data Listens (deadline : ℕ) (vm : Vm) (e : Ended (Unit {0})) : Type 0 where
    over :
        (n : ℕ) (after : Vm)
        → e ≡ returned tt after
        → after.buffer ≡ vm.buffer ++ heard host vm.moment n
        → Kept vm.clients vm after
        → (contains sentinel after.buffer ≡ true
            → contains sentinel vm.buffer ≡ false
            → is_running after.process ≡ true)
        → (contains sentinel after.buffer ≡ false
            → is_running vm.process ≡ true
            → IsOver host deadline (vm.moment + n))
        → Listens deadline vm e
    broke :
        (lost_at : ℕ) (after : Vm)
        → host.receives lost_at ≡ disconnected
        → e ≡ raised (os_error "recv") after
        → Kept vm.clients vm after
        → Listens deadline vm e

  -- the state of the next round, with what was read so far
  abbrev with_buffer : List ℕ → Vm → Vm
  with_buffer buffer vm = record (later (poll host vm)) { buffer = buffer }

  heard_one :
      (m n : ℕ) (r : Received)
      → host.receives m ≡ r
      → heard host m (suc n) ≡ bytes_of r ++ heard host (suc m) n
  unfolding heard
  heard_one m n r h = rw (h, heard) refl

  grown :
      (vm : Vm) (r : Received) (n : ℕ) (buffer : List ℕ)
      → host.receives vm.moment ≡ r
      → buffer ≡ (vm.buffer ++ bytes_of r) ++ heard host (suc vm.moment) n
      → buffer ≡ vm.buffer ++ heard host vm.moment (suc n)
  grown vm r n buffer received h =
      h
      ∙ append_assoc vm.buffer (bytes_of r) (heard host (suc vm.moment) n)
      ∙ ap (λ heard_now. vm.buffer ++ heard_now) (sym (heard_one vm.moment n r received))

  Listens-later :
      (deadline : ℕ) (vm : Vm) (r : Received) (e : Ended (Unit {0}))
      → host.receives vm.moment ≡ r
      → is_running (poll host vm).process ≡ true
      → (contains sentinel vm.buffer ≡ false → contains sentinel (vm.buffer ++ bytes_of r) ≡ false)
      → Listens deadline (with_buffer (vm.buffer ++ bytes_of r) vm) e
      → Listens deadline vm e
  unfolding poll
  Listens-later deadline vm r e received running_on unseen (over n after returns h k alive ends) =
      over (suc n) after returns (grown vm r n after.buffer received h)
        (record {
          stdout_handle = k.stdout_handle;
          stderr_handle = k.stderr_handle;
          serial_log = k.serial_log;
          stray_logs = k.stray_logs;
          clients = k.clients;
        })
        (λ found before. alive found (unseen before))
        (λ missing was. rw (← next_moment host vm.moment n) (ends missing running_on))
  Listens-later deadline vm r e received running_on unseen (broke lost_at after gone_at raises k) =
      broke lost_at after gone_at raises (record {
        stdout_handle = k.stdout_handle;
        stderr_handle = k.stderr_handle;
        serial_log = k.serial_log;
        stray_logs = k.stray_logs;
        clients = k.clients;
      })

  -- a round in which the loop ends
  ends_here :
      (deadline : ℕ) (vm after : Vm)
      → Kept vm.clients vm after
      → after.buffer ≡ vm.buffer
      → (is_running vm.process ≡ true → IsOver host deadline vm.moment)
      → Listens deadline vm (returned tt after)
  unfolding heard
  ends_here deadline vm after k same ends =
      over 0 after refl (rw (append-nil vm.buffer) same) k
        (λ found before. absurd (cc (found, before, same)))
        (λ missing was. rw (plus_zero host vm.moment) (ends was))

  self-Kept : (vm : Vm) → Kept vm.clients vm vm
  self-Kept vm = record {
    stdout_handle = refl;
    stderr_handle = refl;
    serial_log = refl;
    stray_logs = refl;
    clients = refl;
  }

  later-Kept : (vm : Vm) (buffer : List ℕ) → Kept vm.clients vm (with_buffer buffer vm)
  unfolding poll
  later-Kept vm buffer = record {
    stdout_handle = refl;
    stderr_handle = refl;
    serial_log = refl;
    stray_logs = refl;
    clients = refl;
  }

  next-Kept : (vm : Vm) → Kept vm.clients vm (later (poll host vm))
  unfolding poll
  next-Kept vm = record {
    stdout_handle = refl;
    stderr_handle = refl;
    serial_log = refl;
    stray_logs = refl;
    clients = refl;
  }

  nothing_more : (bs : List ℕ) (m : ℕ) → bs ≡ bs ++ heard host m 0
  unfolding heard
  nothing_more bs m = sym (append-nil bs)

  poll-buffer : (vm : Vm) → (poll host vm).buffer ≡ vm.buffer
  unfolding poll
  poll-buffer vm = refl

  -- one round, by what `recv` gives, where the rest of the loop comes to something
  hear-Listens :
      (deadline : ℕ) (vm : Vm) (rest : List ℕ → Ended (Unit {0}))
      → is_running (poll host vm).process ≡ true
      → ((buffer : List ℕ) → Listens deadline (with_buffer buffer vm) (rest buffer))
      → Listens deadline vm (hear sentinel (host.receives vm.moment) (later (poll host vm)) rest)
  hear-Listens deadline vm rest alive next = elim (Received-cases (host.receives vm.moment)) [
    | inl (inl nothing) ↦
        rw (nothing, poll-buffer vm, hear)
          (Listens-later deadline vm timed_out _ nothing alive (λ h. rw (append-nil vm.buffer) h)
            (rw (append-nil vm.buffer) (next vm.buffer)))
    | inl (inr nothing) ↦
        rw (nothing, poll-buffer vm, hear)
          (Listens-later deadline vm (chunk []) _ nothing alive (λ h. rw (append-nil vm.buffer) h)
            (rw (append-nil vm.buffer) (next vm.buffer)))
    | inr (inl (b, bs, some_bytes)) ↦ elim (Bool-cases (contains sentinel (vm.buffer ++ b ∷ bs))) [
      | inl found ↦
          rw (some_bytes, poll-buffer vm, found)
            (over 1 (with_buffer (vm.buffer ++ b ∷ bs) vm) refl
              (grown vm (chunk (b ∷ bs)) 0 (vm.buffer ++ b ∷ bs) some_bytes
                (nothing_more (vm.buffer ++ b ∷ bs) (suc vm.moment)))
              (later-Kept vm (vm.buffer ++ b ∷ bs)) (λ there before. alive)
              (λ missing was. absurd (cc (missing, found))))
      | inr unseen ↦
          rw (some_bytes, poll-buffer vm, unseen)
            (Listens-later deadline vm (chunk (b ∷ bs)) _ some_bytes alive (λ before. unseen)
              (next (vm.buffer ++ b ∷ bs)))
    ]
    | inr (inr broken) ↦
        rw (broken, hear) (broke vm.moment (later (poll host vm)) broken refl (next-Kept vm))
  ]

  read_round :
      (k deadline : ℕ) (vm : Vm)
      → (ltb (host.clock vm.moment) deadline ≡ true
          → (buffer : List ℕ)
          → Listens deadline
              (with_buffer buffer vm)
              (read_rounds host k sentinel deadline (with_buffer buffer vm)))
      → Listens deadline vm (read_rounds host (suc k) sentinel deadline vm)
  unfolding read_rounds
  read_round k deadline vm next = elim (Bool-cases (ltb (host.clock vm.moment) deadline)) [
    | inr late ↦
        rw (read_rounds, late)
          (ends_here deadline vm vm (self-Kept vm) refl
            (λ was. inl (not_before host (host.clock vm.moment) deadline late)))
    | inl early ↦ elim (Bool-cases (is_running (poll host vm).process)) [
      | inr gone ↦
          rw (read_rounds, early, gone)
            (ends_here deadline vm (poll host vm) (poll-Kept host vm) (poll-buffer vm)
              (λ was. inr (vm.moment, poll-exits host vm was gone)))
      | inl alive ↦
          rw (read_rounds, early, alive)
            (hear-Listens deadline vm
              (λ buffer. read_rounds host k sentinel deadline (with_buffer buffer vm)) alive
              (next early))
    ]
  ]

  -- With a round more than it takes until the deadline, the loop ends.
  pub read_rounds-Listens :
      (k deadline : ℕ) (vm : Vm)
      → deadline ≤ host.clock (vm.moment + k)
      → Listens deadline vm (read_rounds host (suc k) sentinel deadline vm)
  read_rounds-Listens zero deadline vm h =
      read_round zero deadline vm
        (λ early. absurd (ground (arith, ltb→lt (host.clock vm.moment) deadline early)))
  read_rounds-Listens (suc k) deadline vm h = read_round (suc k) deadline vm (λ early buffer.
      read_rounds-Listens k deadline (with_buffer buffer vm)
        (rw (poll-moment host vm, next_moment host vm.moment k) h))
