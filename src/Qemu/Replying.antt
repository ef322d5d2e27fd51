-- ===== src/Qemu/Replying.antt =====
-- What `agent_case` of src/osbench/qemu.py comes to.
use mathlib.Core.List.{append-nil, append_assoc}
use os_bench.Common.{
  ℕ, zero, suc, ◌+◌, ◌≤◌, ◌≡◌, refl, sym, ◌∙◌, ap, true, List, [], ◌∷◌, ◌++◌, Option, none, some,
  Option-cases, ltb, ltb→lt, inl, inr, Bool-cases, arith,
}
use os_bench.Common.Result.{Result, os_error}
use os_bench.Qemu.Machine.{
  disconnected, Host, Received, timed_out, chunk, Vm, Ended, returned, raised, later,
}
use os_bench.Qemu.Agent.{result_of, decoded, take_reply, reply_rounds}
use os_bench.Qemu.Hearing.{plus_zero, not_before, bytes_of, Received-cases, heard, next_moment}

module _ {Answer : Type 0} (decode : List ℕ → Result Answer) (host : Host) where
  -- no line of what was heard in fewer than `n` moments is a result
  abbrev pub IsSilent : List ℕ → ℕ → ℕ → Type 0
  IsSilent buffer moment n = (k : ℕ) → suc k ≤ n → result_of (buffer ++ heard host moment k) ≡ none

  -- what the loop comes to
  pub data Replies (deadline : ℕ) (vm : Vm) (e : Ended (Option Answer)) : Type 0 where
    answered :
        (n : ℕ) (encoded : List ℕ) (after : Vm)
        → IsSilent vm.buffer vm.moment n
        → result_of (vm.buffer ++ heard host vm.moment n) ≡ some encoded
        → e ≡ decoded decode (decode encoded) after
        → after.clients ≡ vm.clients
        → after.stray_logs ≡ vm.stray_logs
        → Replies deadline vm e
    silent :
        (n : ℕ) (after : Vm)
        → IsSilent vm.buffer vm.moment (suc n)
        → deadline ≤ host.clock (vm.moment + n)
        → e ≡ returned none after
        → after.clients ≡ vm.clients
        → after.stray_logs ≡ vm.stray_logs
        → Replies deadline vm e
    broke :
        (lost_at : ℕ) (after : Vm)
        → host.receives lost_at ≡ disconnected
        → e ≡ raised (os_error "recv") after
        → after.clients ≡ vm.clients
        → after.stray_logs ≡ vm.stray_logs
        → Replies deadline vm e

  abbrev with_buffer : List ℕ → Vm → Vm
  with_buffer buffer vm = record (later vm) { buffer = buffer }

  -- one moment of hearing before the others
  heard_on :
      (vm : Vm) (r : Received) (k : ℕ)
      → host.receives vm.moment ≡ r
      → (vm.buffer ++ bytes_of r) ++ heard host (suc vm.moment) k
        ≡ vm.buffer ++ heard host vm.moment (suc k)
  unfolding heard
  heard_on vm r k h =
      rw (h, heard) (append_assoc vm.buffer (bytes_of r) (heard host (suc vm.moment) k))

  heard_none : (buffer : List ℕ) (moment : ℕ) → buffer ++ heard host moment 0 ≡ buffer
  unfolding heard
  heard_none buffer moment = append-nil buffer

  IsSilent-on :
      (vm : Vm) (r : Received) (n : ℕ)
      → host.receives vm.moment ≡ r
      → result_of vm.buffer ≡ none
      → IsSilent (vm.buffer ++ bytes_of r) (suc vm.moment) n
      → IsSilent vm.buffer vm.moment (suc n)
  IsSilent-on vm r n h start rest zero bound = rw (heard_none vm.buffer vm.moment) start
  IsSilent-on vm r n h start rest (suc k) bound =
      ap result_of (sym (heard_on vm r k h)) ∙ rest k (ground arith)

  Replies-later :
      (deadline : ℕ) (vm : Vm) (r : Received) (e : Ended (Option Answer))
      → host.receives vm.moment ≡ r
      → result_of vm.buffer ≡ none
      → Replies deadline (with_buffer (vm.buffer ++ bytes_of r) vm) e
      → Replies deadline vm e
  Replies-later deadline vm r e h start (answered n encoded after quiet found returns c p) =
      answered (suc n) encoded after (IsSilent-on vm r n h start quiet)
        (ap result_of (sym (heard_on vm r n h)) ∙ found) returns c p
  Replies-later deadline vm r e h start (silent n after quiet late returns c p) =
      silent (suc n) after (IsSilent-on vm r (suc n) h start quiet)
        (rw (← next_moment host vm.moment n) late) returns c p
  Replies-later deadline vm r e h start (broke lost_at after gone_at raises c p) =
      broke lost_at after gone_at raises c p

  take_reply-Replies :
      (deadline : ℕ) (vm : Vm) (rest : List ℕ → Ended (Option Answer))
      → result_of vm.buffer ≡ none
      → ((buffer : List ℕ)
          → result_of buffer ≡ none
          → Replies deadline (with_buffer buffer vm) (rest buffer))
      → Replies deadline vm (take_reply decode (host.receives vm.moment) (later vm) rest)
  take_reply-Replies deadline vm rest start next = elim (Received-cases (host.receives vm.moment)) [
    | inl (inl nothing) ↦
        rw (nothing, take_reply)
          (Replies-later deadline vm timed_out _ nothing start
            (rw (append-nil vm.buffer) (next vm.buffer start)))
    | inl (inr nothing) ↦
        rw (nothing, take_reply)
          (Replies-later deadline vm (chunk []) _ nothing start
            (rw (append-nil vm.buffer) (next vm.buffer start)))
    | inr (inl (b, bs, some_bytes)) ↦
        let buffer = vm.buffer ++ b ∷ bs in
        elim (Option-cases (result_of buffer)) [
          | inl unseen ↦
              rw (some_bytes, unseen)
                (Replies-later deadline vm (chunk (b ∷ bs)) _ some_bytes start (next buffer unseen))
          | inr (encoded, found) ↦
              rw (some_bytes, found)
                (answered 1 encoded (with_buffer buffer vm)
                  (IsSilent-on vm (chunk (b ∷ bs)) 0 some_bytes start
                    (λ k bound. absurd (ground (arith, bound))))
                  (ap result_of (
                      sym (heard_on vm (chunk (b ∷ bs)) 0 some_bytes)
                      ∙ heard_none buffer (suc vm.moment))
                    ∙ found)
                  refl refl refl)
        ]
    | inr (inr broken) ↦ rw (broken, take_reply) (broke vm.moment (later vm) broken refl refl refl)
  ]

  reply_round :
      (k deadline : ℕ) (vm : Vm)
      → result_of vm.buffer ≡ none
      → (ltb (host.clock vm.moment) deadline ≡ true
          → (buffer : List ℕ) → result_of buffer ≡ none
          → Replies deadline
              (with_buffer buffer vm)
              (reply_rounds decode host k deadline (with_buffer buffer vm)))
      → Replies deadline vm (reply_rounds decode host (suc k) deadline vm)
  unfolding reply_rounds
  reply_round k deadline vm start next = elim (Bool-cases (ltb (host.clock vm.moment) deadline)) [
    | inr late ↦
        rw (reply_rounds, late)
          (silent 0 vm
            (λ j bound.
              let none_yet : j ≡ 0 = ground arith in
              ap result_of (
                ap (λ i. vm.buffer ++ heard host vm.moment i) none_yet
                ∙ heard_none vm.buffer vm.moment)
              ∙ start)
            (rw (plus_zero host vm.moment) (not_before host (host.clock vm.moment) deadline late))
            refl refl refl)
    | inl early ↦
        rw (reply_rounds, early)
          (take_reply-Replies deadline vm
            (λ buffer. reply_rounds decode host k deadline (with_buffer buffer vm)) start
            (next early))
  ]

  pub reply_rounds-Replies :
      (k deadline : ℕ) (vm : Vm)
      → deadline ≤ host.clock (vm.moment + k)
      → result_of vm.buffer ≡ none
      → Replies deadline vm (reply_rounds decode host (suc k) deadline vm)
  reply_rounds-Replies zero deadline vm h start =
      reply_round zero deadline vm start
        (λ early. absurd (ground (arith, ltb→lt (host.clock vm.moment) deadline early)))
  reply_rounds-Replies (suc k) deadline vm h start =
      reply_round (suc k) deadline vm start (λ early buffer unseen.
        reply_rounds-Replies k deadline (with_buffer buffer vm)
          (rw (next_moment host vm.moment k) h) unseen)
