-- ===== src/Qemu/Answering.antt =====
-- `agent_case` of src/osbench/qemu.py as a whole.
use os_bench.Common.{
  ℕ, suc, ◌+◌, ◌-◌, ◌≤◌, String, ◌≡◌, refl, ◌∙◌, List, [], Option, some, none, arith, inl, inr,
  Bool-cases, false,
}
use os_bench.Common.Result.{Error, Result, ok, err, Result-cases, timeout_error, os_error}
use os_bench.Qemu.Machine.{
  Host, Vm, Ended, returned, raised, and_then, finally, later, close_client,
}
use os_bench.Qemu.Agent.{result_of, close, require_answer, agent_case}
use os_bench.Qemu.Hearing.{heard, Fault, lost, connected, refused, connect_rounds-Connects}
use os_bench.Qemu.Replying.{IsSilent, Replies, answered, silent, broke, reply_rounds-Replies}
use os_bench.Qemu.Serial.{connect_unix}

module _ {Answer : Type 0} (decode : List ℕ → Result Answer) (host : Host) where
  -- What the call comes to.
  pub data Answers (path : String) (timeout : ℕ) (vm : Vm) (e : Ended Answer) : Type 0 where
    decodes :
        (start n : ℕ) (encoded : List ℕ) (answer : Answer) (after : Vm)
        → IsSilent decode host [] start n
        → result_of (heard host start n) ≡ some encoded
        → decode encoded ≡ ok answer
        → e ≡ returned answer after
        → after.stray_logs ≡ vm.stray_logs
        → after.clients ≡ vm.clients
        → Answers path timeout vm e
    garbles :
        (start n : ℕ) (encoded : List ℕ) (error : Error) (after : Vm)
        → IsSilent decode host [] start n
        → result_of (heard host start n) ≡ some encoded
        → decode encoded ≡ err error
        → e ≡ raised error after
        → after.stray_logs ≡ vm.stray_logs
        → after.clients ≡ vm.clients
        → Answers path timeout vm e
    times_out :
        (start n : ℕ) (after : Vm)
        → IsSilent decode host [] start (suc n)
        → host.clock start + timeout ≤ host.clock (start + n)
        → e ≡ raised (timeout_error "case") after
        → after.stray_logs ≡ vm.stray_logs
        → after.clients ≡ vm.clients
        → Answers path timeout vm e
    unsent :
        (moment : ℕ) (after : Vm)
        → host.sends moment ≡ false
        → e ≡ raised (os_error "sendall") after
        → after.stray_logs ≡ vm.stray_logs
        → after.clients ≡ suc vm.clients
        → Answers path timeout vm e
    failed :
        (error : Error) (after : Vm)
        → e ≡ raised error after
        → Fault host (host.clock vm.moment + timeout) path vm error
        → after.stray_logs ≡ vm.stray_logs
        → after.clients ≡ vm.clients
        → Answers path timeout vm e

  one_less : (n m k : ℕ) → n ≡ m → m ≡ suc k → n - 1 ≡ k
  one_less n m k h j = ground arith

  -- the loop's end, the `finally` and what follows
  replied-Answers :
      (path : String) (timeout : ℕ) (vm sent : Vm) (reading : Ended (Option Answer))
      → sent.buffer ≡ []
      → sent.clients ≡ suc vm.clients
      → sent.stray_logs ≡ vm.stray_logs
      → Replies decode host (host.clock sent.moment + timeout) sent reading
      → Answers path timeout vm
          (and_then (finally reading close) (λ answer read. require_answer decode answer read))
  replied-Answers path timeout vm sent reading b k q (answered n encoded after quiet found r c p) =
      let shut = one_less after.clients sent.clients vm.clients c k in
      elim (Result-cases (decode encoded)) [
        | inl (answer, good) ↦
            rw (r, good)
              (decodes sent.moment n encoded answer (close_client after) (rw b at quiet)
                (rw b at found) good refl (p ∙ q) shut)
        | inr (error, bad) ↦
            rw (r, bad)
              (garbles sent.moment n encoded error (close_client after) (rw b at quiet)
                (rw b at found) bad refl (p ∙ q) shut)
      ]
  replied-Answers path timeout vm sent reading b k q (silent n after quiet late r c p) = rw (r) (
      times_out sent.moment n (close_client after) (rw b at quiet) late refl (p ∙ q)
        (one_less after.clients sent.clients vm.clients c k))
  replied-Answers path timeout vm sent reading b k q (broke lost_at after gone_at r c p) = rw (r) (
      failed (os_error "recv") (close_client after) refl (lost refl lost_at gone_at) (p ∙ q)
        (one_less after.clients sent.clients vm.clients c k))

  result_of-nothing : result_of [] ≡ none
  unfolding result_of
  result_of-nothing = refl

  -- With one round more than there are in its time, `agent_case` ends. It decodes the first
  -- result line of what it hears, in the first round in which there is one, and returns the
  -- result or raises the decoder's error; it raises a timeout if there is none until its time is
  -- over. Otherwise nothing accepted in time, the guest had exited, the connection broke, or the
  -- request could not be sent; in all but the last case it has closed its socket.
  pub agent_case-Answers :
      (rounds : ℕ) (path : String) (timeout : ℕ)
      → ((moment : ℕ) → host.clock moment + timeout ≤ host.clock (moment + rounds))
      → (vm : Vm) → Answers path timeout vm (agent_case decode host (suc rounds) path timeout vm)
  unfolding agent_case connect_unix
  agent_case-Answers rounds path timeout long vm =
      elim (connect_rounds-Connects host rounds (host.clock vm.moment + timeout) path vm
        (long vm.moment)) [
          | refused error after r k fault ↦
              rw (r, agent_case) (failed error after refl fault k.stray_logs k.clients)
          | connected after r k alive ↦ elim (Bool-cases (host.sends after.moment)) [
            | inr unheard ↦
                rw (r, agent_case, unheard)
                  (unsent after.moment after unheard refl k.stray_logs k.clients)
            | inl through ↦
                rw (r, agent_case, through)
                  (replied-Answers path timeout vm (record (later after) { buffer = [] }) _ refl
                    k.clients k.stray_logs
                    (reply_rounds-Replies decode host rounds
                      (host.clock (later after).moment + timeout)
                      (record (later after) { buffer = [] }) (long (later after).moment)
                      result_of-nothing))
          ]
        ]
