-- ===== src/Qemu/Qmp.antt =====
-- The control socket of src/osbench/qemu.py: `qmp`, `hotplug_block`, `hotunplug_block`.
use os_bench.Common.{ℕ, String, Bool, ◌||◌, List, [], ◌∷◌, if◌then◌else◌}
use os_bench.Common.Text.{concat}
use os_bench.Common.Result.{
  Result, ok, err, runtime_error, value_error, os_error, ◌>>=◌, raise_if, ◌>>◌,
}
use os_bench.Qemu.Machine.{Host, Vm, Ended, and_then, finally}
use os_bench.Qemu.Agent.{close}
use os_bench.Qemu.Control.{at}
use os_bench.Qemu.Serial.{connect_unix}

-- What `readline` gives, read as JSON: a message, something that is no JSON (the empty line at
-- the end of the stream is none), or a timeout.
pub data Line (Message : Type 0) : Type 0 where
  message : Message → Line Message
  garbled : Line Message
  late : Line Message

-- which of the members that matter a message has
pub record Members (Message : Type 0) : Type 0 where
  pub has_return : Message → Bool
  pub has_error : Message → Bool

pub record QmpReply (Message : Type 0) : Type 0 where
  pub greeting : Message
  pub reply : Message

-- what is written
pub data Argument : Type 0 where
  value : String → Argument
  table : List (String × String) → Argument

pub record Request : Type 0 where
  pub execute : String
  pub arguments : List (String × Argument)

module _ {Message : Type 0} (members : Members Message) where
  -- one line and what follows it
  abbrev pub read_line : List (Line Message) → Result (Message × List (Line Message))
  read_line [] = err (value_error "JSONDecodeError")
  read_line (message m ∷ lines) = ok (m, lines)
  read_line (garbled ∷ lines) = err (value_error "JSONDecodeError")
  read_line (late ∷ lines) = err (os_error "timed out")

  abbrev pub is_reply : Message → Bool
  is_reply m = members.has_return m || members.has_error m

  -- Events come in between.
  abbrev pub read_reply : List (Line Message) → Result Message
  read_reply [] = err (value_error "JSONDecodeError")
  read_reply (message m ∷ lines) = let rest = read_reply lines in if is_reply m then ok m else rest
  read_reply (garbled ∷ lines) = err (value_error "JSONDecodeError")
  read_reply (late ∷ lines) = err (os_error "timed out")

  -- what goes over the socket
  unfoldable pub session : List (Line Message) → Result (QmpReply Message)
  session lines = read_line lines >>= λ (greeting, more). read_line more >>= λ (capabilities, rest).
      raise_if (members.has_error capabilities) (runtime_error "capabilities")
      >> (read_reply rest >>= λ reply. ok (record { greeting = greeting; reply = reply }))

  -- `lines` is what QEMU sends on a connection on which this is asked
  module _ (host : Host) (rounds : ℕ) (path : String) (lines : Request → List (Line Message)) where
    unfoldable pub qmp : Request → Vm → Ended (QmpReply Message)
    qmp request vm =
        and_then (connect_unix host rounds path 10000000000 vm)
          (λ client connection. finally (at (session (lines request)) connection) close)

    abbrev pub blockdev_add : String → String → Request
    blockdev_add image node_id = record {
      execute = "blockdev-add";
      arguments =
          ("node-name", value node_id)
          ∷ ("driver", value "raw")
          ∷ ("file", table (("driver", "file") ∷ ("filename", image) ∷ []))
          ∷ [];
    }

    abbrev pub device_add : String → Request
    device_add node_id = record {
      execute = "device_add";
      arguments =
          ("driver", value "virtio-blk-pci")
          ∷ ("drive", value node_id)
          ∷ ("id", value (concat ("dev-" ∷ node_id ∷ [])))
          ∷ [];
    }

    abbrev pub device_del : String → Request
    device_del node_id = record {
      execute = "device_del";
      arguments = ("id", value (concat ("dev-" ∷ node_id ∷ []))) ∷ [];
    }

    unfoldable pub hotplug_block : String → String → Vm → Ended (QmpReply Message)
    hotplug_block image node_id vm =
        and_then (qmp (blockdev_add image node_id) vm) (λ reply now. qmp (device_add node_id) now)

    unfoldable pub hotunplug_block : String → Vm → Ended (QmpReply Message)
    hotunplug_block node_id vm = qmp (device_del node_id) vm
