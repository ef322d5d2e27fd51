-- ===== src/Qemu/Profile.antt =====
-- `QemuProfile` and `load_profile` of src/osbench/qemu.py. The document is config/qemu.yaml as
-- read; `str`, `int`, `float` and `list` are taken of its values, and times are in nanoseconds.
use os_bench.Common.{
  ℕ, ◌*◌, String, List, [], ◌∷◌, Option, none, some, get_or, Dict, lookup, ◌==◌, if◌then◌else◌,
}
use os_bench.Common.Result.{Result, ok, err, key_error}

pub record Profile : Type 0 where
  pub name : String
  pub binary : String
  pub machine : String
  pub accelerator : String
  pub cpu : String
  pub memory_mb : ℕ
  pub smp : ℕ
  pub firmware_code_candidates : List String
  pub firmware_vars_candidates : List String
  pub disk_interface : String
  pub network_device : String
  pub rng_device : String
  pub boot_timeout : ℕ
  pub case_timeout : ℕ
  pub shutdown_timeout : ℕ

-- the members of a profile of the document, where present
pub record ProfileValues : Type 0 where
  pub binary : Option String
  pub machine : Option String
  pub accelerator : Option String
  pub cpu : Option String
  pub memory_mb : Option ℕ
  pub smp : Option ℕ
  pub firmware_code_candidates : Option (List String)
  pub firmware_code : Option (List String)
  pub firmware_vars_candidates : Option (List String)
  pub firmware_vars : Option (List String)
  pub disk_interface : Option String
  pub network_device : Option String
  pub rng_device : Option String
  pub boot_timeout : Option ℕ
  pub case_timeout : Option ℕ
  pub shutdown_timeout : Option ℕ

pub record ProfileDocument : Type 0 where
  pub default_profile : Option String
  pub profiles : Option (Dict ProfileValues)

-- `name or os.environ.get("OSBENCH_PROFILE", default)`
abbrev pub configured_name : Option String → Option String → Option String → String
configured_name none environment default = get_or environment (get_or default "macos_tcg")
configured_name (some name) environment default =
    if name == "" then get_or environment (get_or default "macos_tcg") else name

abbrev seconds : ℕ → ℕ
seconds n = n * 1000000000

abbrev pub profile_of : String → ProfileValues → Profile
profile_of name values = record {
  name = name;
  binary = get_or values.binary "qemu-system-x86_64";
  machine = get_or values.machine "q35";
  accelerator = get_or values.accelerator "tcg";
  cpu = get_or values.cpu "max";
  memory_mb = get_or values.memory_mb 2048;
  smp = get_or values.smp 2;
  firmware_code_candidates = get_or values.firmware_code_candidates (
      get_or values.firmware_code
        ("/usr/share/OVMF/OVMF_CODE_4M.fd" ∷ "/usr/share/OVMF/OVMF_CODE.fd" ∷ []));
  firmware_vars_candidates = get_or values.firmware_vars_candidates (
      get_or values.firmware_vars
        ("/usr/share/OVMF/OVMF_VARS_4M.fd" ∷ "/usr/share/OVMF/OVMF_VARS.fd" ∷ []));
  disk_interface = get_or values.disk_interface "virtio";
  network_device = get_or values.network_device "virtio-net-pci";
  rng_device = get_or values.rng_device "virtio-rng-pci";
  boot_timeout = get_or values.boot_timeout (seconds 180);
  case_timeout = get_or values.case_timeout (seconds 30);
  shutdown_timeout = get_or values.shutdown_timeout (seconds 20);
}

abbrev pub find_profile : Option (Dict ProfileValues) → String → Option ProfileValues
find_profile none name = none
find_profile (some profiles) name = lookup name profiles

-- `environment` is the variable OSBENCH_PROFILE
unfoldable pub load_profile : ProfileDocument → Option String → Option String → Result Profile
load_profile document environment name =
    let configured = configured_name name environment document.default_profile in
    elim (find_profile document.profiles configured) [
      | none ↦ err (key_error configured)
      | some values ↦ ok (profile_of configured values)
    ]
