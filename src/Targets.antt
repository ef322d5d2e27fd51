-- ===== src/Targets.antt =====
-- `LocalTarget` and `QemuTarget` of src/osbench/targets.py. What a local target executes is the
-- probes' business; a guest's target keeps the run that it started.
pub mod Guest
pub mod Ownership
pub mod Stopped
use os_bench.Common.{
  String, Bool, false, List, [], ◌∷◌, Option, none, some, elem, ◌==◌, if◌then◌else◌,
}

-- the two places of a case that can name its transport
pub record TransportFields : Type 0 where
  pub transport : Option String
  pub setup_transport : Option String

-- `case.get("transport") or case.get("setup", {}).get("transport")`
abbrev pub case_transport : TransportFields → Option String
case_transport c = elim c.transport [
  | none ↦ c.setup_transport
  | some transport ↦ if transport == "" then c.setup_transport else some transport
]

abbrev local_transports : List String
local_transports = "host" ∷ "raw_syscall" ∷ "shell" ∷ "none" ∷ []

unfoldable pub local_supports : TransportFields → Bool
local_supports c = elim (case_transport c) [
  | none ↦ false
  | some transport ↦ elem transport local_transports
]
