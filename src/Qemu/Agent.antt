-- ===== src/Qemu/Agent.antt =====
-- `agent_case` of src/osbench/qemu.py: a case is sent to the guest's agent, and the first result
-- line that comes back is decoded.
use os_bench.Common.{
  ℕ, zero, suc, ◌+◌, String, List, [], ◌∷◌, ◌++◌, Option, none, some, ltb, if◌then◌else◌,
}
use os_bench.Common.Result.{Result, ok, err, timeout_error, os_error}
use os_bench.Qemu.Bytes.{starts_with, split_lines, after_space}
use os_bench.Qemu.Machine.{
  Host, Received, timed_out, chunk, disconnected, Vm, Ended, returned, raised, hung, and_then,
  finally, later, close_client,
}
use os_bench.Qemu.Serial.{connect_unix}

-- b"OSBENCH_RESULT "
abbrev pub result_prefix : List ℕ
result_prefix = 79 ∷ 83 ∷ 66 ∷ 69 ∷ 78 ∷ 67 ∷ 72 ∷ 95 ∷ 82 ∷ 69 ∷ 83 ∷ 85 ∷ 76 ∷ 84 ∷ 32 ∷ []

-- what the first result line encodes
abbrev pub first_result : List (List ℕ) → Option (List ℕ)
first_result [] = none
first_result (line ∷ lines) =
    if starts_with result_prefix line then some (after_space line) else first_result lines

unfoldable pub result_of : List ℕ → Option (List ℕ)
result_of buffer = first_result (split_lines buffer)

abbrev pub close : Vm → Ended (Unit {0})
close vm = returned tt (close_client vm)

-- `decode` is the base64 and JSON decoding
module _ {Answer : Type 0} (decode : List ℕ → Result Answer) where
  -- the `return` of what the line encodes
  abbrev pub decoded : Result Answer → Vm → Ended (Option Answer)
  decoded (ok answer) vm = returned (some answer) vm
  decoded (err e) vm = raised e vm

  -- what is done with the bytes so far, after some have come
  abbrev pub reply_or : Option (List ℕ) → Vm → Ended (Option Answer) → Ended (Option Answer)
  reply_or none vm rest = rest
  reply_or (some encoded) vm rest = decoded (decode encoded) vm

  -- the rest of a round, with what `recv` gave
  abbrev pub take_reply : Received → Vm → (List ℕ → Ended (Option Answer)) → Ended (Option Answer)
  take_reply timed_out vm rest = rest vm.buffer
  take_reply (chunk []) vm rest = rest vm.buffer
  take_reply (chunk (b ∷ bs)) vm rest =
      let buffer = vm.buffer ++ b ∷ bs in
      reply_or (result_of buffer) (record vm { buffer = buffer }) (rest buffer)
  take_reply disconnected vm rest = raised (os_error "recv") vm

  -- the result, or an error that there was none
  abbrev pub require_answer : Option Answer → Vm → Ended Answer
  require_answer none vm = raised (timeout_error "case") vm
  require_answer (some answer) vm = returned answer vm

  module _ (host : Host) where
    unfoldable pub reply_rounds : ℕ → ℕ → Vm → Ended (Option Answer)
    reply_rounds zero deadline vm = hung vm
    reply_rounds (suc rounds) deadline vm =
        if ltb (host.clock vm.moment) deadline
        then take_reply (host.receives vm.moment) (later vm)
            (λ buffer. reply_rounds rounds deadline (record (later vm) { buffer = buffer }))
        else returned none vm

    -- `client.sendall`, which stands before the `try`
    abbrev pub send_request : Vm → Ended (Unit {0})
    send_request vm =
        if host.sends vm.moment then returned tt (later vm) else raised (os_error "sendall") vm

    unfoldable pub agent_case : ℕ → String → ℕ → Vm → Ended Answer
    agent_case rounds path timeout vm =
        and_then (connect_unix host rounds path timeout vm) (λ client connection.
          and_then (send_request connection) (λ done sent.
            and_then
              (finally
                (reply_rounds rounds (host.clock sent.moment + timeout)
                  (record sent { buffer = [] }))
                close)
              (λ answer read. require_answer answer read)))
