-- ===== src/Qemu/Command.antt =====
-- `_first_existing` and `build_command` of src/osbench/qemu.py. Paths are texts; `shown` is
-- Python's `str` of a number.
use os_bench.Common.{
  ℕ, suc, String, Bool, true, false, List, [], ◌∷◌, ◌++◌, Option, none, some, if◌then◌else◌,
}
use os_bench.Common.Text.{concat}
use os_bench.Common.Result.{Result, ok, err, file_not_found, ◌>>=◌}
use os_bench.Qemu.Profile.{Profile}

-- the arguments that the caller of `start` chooses
pub record Launch : Type 0 where
  pub image : String
  pub seed : ℕ
  pub snapshot : Bool
  pub install_iso : Option String
  pub kernel : Option String
  pub initrd : Option String
  pub append : Option String
  pub auxiliary_media : List String

-- those that `start` makes
pub record RunPaths : Type 0 where
  pub serial_path : String
  pub qmp_path : String
  pub vars_path : String

abbrev pub first_existing : (String → Bool) → List String → Result String
first_existing is_file [] = err (file_not_found "None of the configured files exist")
first_existing is_file (c ∷ cs) = if is_file c then ok c else first_existing is_file cs

-- an option that is there when its argument is
abbrev pub given_option : String → Option String → List String
given_option flag none = []
given_option flag (some value) = flag ∷ value ∷ []

abbrev pub snapshot_options : Bool → List String
snapshot_options true = "-snapshot" ∷ []
snapshot_options false = []

module _ (shown : ℕ → String) where
  -- the options that every guest gets
  abbrev pub machine_options : Profile → String → Launch → RunPaths → List String
  machine_options profile firmware_code l paths =
      profile.binary
      ∷ "-name"
      ∷ concat ("osbench-" ∷ shown l.seed ∷ [])
      ∷ "-machine"
      ∷ profile.machine
      ∷ "-accel"
      ∷ profile.accelerator
      ∷ "-cpu"
      ∷ profile.cpu
      ∷ "-m"
      ∷ shown profile.memory_mb
      ∷ "-smp"
      ∷ shown profile.smp
      ∷ "-nodefaults"
      ∷ "-no-reboot"
      ∷ "-display"
      ∷ "none"
      ∷ "-monitor"
      ∷ "none"
      ∷ "-rtc"
      ∷ "base=utc,clock=vm"
      ∷ "-object"
      ∷ "rng-random,id=rng0,filename=/dev/urandom"
      ∷ "-device"
      ∷ concat (profile.rng_device ∷ ",rng=rng0" ∷ [])
      ∷ "-drive"
      ∷ concat ("if=pflash,format=raw,readonly=on,file=" ∷ firmware_code ∷ [])
      ∷ "-drive"
      ∷ concat ("if=pflash,format=raw,file=" ∷ paths.vars_path ∷ [])
      ∷ "-drive"
      ∷ concat (
          "file=" ∷ l.image ∷ ",if=" ∷ profile.disk_interface
          ∷ ",format=qcow2,cache=writeback,discard=unmap" ∷ [])
      ∷ "-netdev"
      ∷ "user,id=net0,restrict=on"
      ∷ "-device"
      ∷ concat (profile.network_device ∷ ",netdev=net0" ∷ [])
      ∷ "-chardev"
      ∷ concat ("socket,id=serial0,path=" ∷ paths.serial_path ∷ ",server=on,wait=off" ∷ [])
      ∷ "-serial"
      ∷ "chardev:serial0"
      ∷ "-qmp"
      ∷ concat ("unix:" ∷ paths.qmp_path ∷ ",server=on,wait=off" ∷ [])
      ∷ []

  -- a CD-ROM drive
  abbrev pub medium_drive : String → ℕ → String
  medium_drive medium index =
      concat ("file=" ∷ medium ∷ ",media=cdrom,readonly=on,index=" ∷ shown index ∷ [])

  abbrev pub media_options : ℕ → List String → List String
  media_options index [] = []
  media_options index (medium ∷ media) =
      "-drive" ∷ medium_drive medium index ∷ media_options (suc index) media

  abbrev pub install_options : Option String → List String
  install_options none = []
  install_options (some iso) =
      "-drive" ∷ concat ("file=" ∷ iso ∷ ",media=cdrom,readonly=on,index=1" ∷ []) ∷ []

  unfoldable pub build_command :
      (String → Bool) → Profile → Launch → RunPaths → Result (List String)
  build_command is_file profile l paths =
      first_existing is_file profile.firmware_code_candidates >>= λ firmware_code. ok (
        machine_options profile firmware_code l paths
        ++ (snapshot_options l.snapshot
            ++ (install_options l.install_iso
                ++ (media_options 2 l.auxiliary_media
                    ++ (given_option "-kernel" l.kernel
                        ++ (given_option "-initrd" l.initrd ++ given_option "-append" l.append))))))
