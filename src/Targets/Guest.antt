-- ===== src/Targets/Guest.antt =====
-- `QemuTarget` of src/osbench/targets.py: a guest is started for the first case and kept for the
-- others until the target is closed.
use os_bench.Common.{
  get_or, ℕ, String, Bool, ◌&&◌, List, [], ◌∷◌, Option, none, some, if◌then◌else◌,
}
use os_bench.Common.Result.{Result}
use os_bench.Qemu.Profile.{Profile}
use os_bench.Qemu.Machine.{Host, Vm, Ended, returned, raised, hung, and_then, stop}
use os_bench.Qemu.Serial.{wait_for_serial}
use os_bench.Qemu.Agent.{agent_case}
use os_bench.Qemu.Control.{Disk, QemuRun, available, boot_launch, start}

-- the members of a case that the target reads; times are in nanoseconds
pub record GuestCase : Type 0 where
  pub seed : Option ℕ
  pub timeout : Option ℕ

-- the arguments that the target was made with
pub record GuestTarget : Type 0 where
  pub image : String
  pub payload_iso : Option String

-- a method's end, with `self.run` as it leaves it
pub record Called {ℓ} (A : Type ℓ) : Type ℓ where
  pub ended : Ended A
  pub run : Option QemuRun

module _ {Answer : Type 0} (decode : List ℕ → Result Answer) (host : Host) (disk : Disk)
    (profile : Profile) (exists_path : String → Bool) (sentinel : List ℕ) (rounds : ℕ)
    (target : GuestTarget) where
  unfoldable pub guest_supports : Bool
  guest_supports = available host disk profile && disk.is_file target.image

  abbrev pub media : Option String → List String
  media none = []
  media (some iso) = if exists_path iso then iso ∷ [] else []

  -- `self.run` is set before the wait
  abbrev pub booted : Ended QemuRun → Called QemuRun
  booted (returned run vm) = record {
    ended =
        and_then
          (wait_for_serial host rounds profile.boot_timeout run.paths.serial_path sentinel none vm)
          (λ serial after. returned run after);
    run = some run;
  }
  booted (raised e vm) = record { ended = raised e vm; run = none }
  booted (hung vm) = record { ended = hung vm; run = none }

  unfoldable pub ensure_run : GuestCase → Option QemuRun → Vm → Called QemuRun
  ensure_run c (some run) vm = record { ended = returned run vm; run = some run }
  ensure_run c none vm = booted (
      start host disk profile
        (boot_launch host disk profile target.image (get_or c.seed 1) (media target.payload_iso))
        none vm)

  unfoldable pub execute : GuestCase → Option QemuRun → Vm → Called Answer
  execute c run vm =
      let ensured = ensure_run c run vm in
      record {
        ended = and_then ensured.ended (λ started ready.
            agent_case decode host rounds started.paths.serial_path (get_or c.timeout 30000000000)
              ready);
        run = ensured.run;
      }

  -- `self.run = None`, once the guest is stopped
  abbrev pub forget : QemuRun → Ended (Unit {0}) → Called (Unit {0})
  forget run (returned done vm) = record { ended = returned done vm; run = none }
  forget run (raised e vm) = record { ended = raised e vm; run = some run }
  forget run (hung vm) = record { ended = hung vm; run = some run }

  unfoldable pub close : Option QemuRun → Vm → Called (Unit {0})
  close none vm = record { ended = returned tt vm; run = none }
  close (some run) vm = forget run (stop host vm)
