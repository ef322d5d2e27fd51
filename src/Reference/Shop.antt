-- ===== src/Reference/Shop.antt =====
-- What `realize_lock` of src/osbench/reference.py finds.
use os_bench.Common.{String, Bool, List, Option}
use os_bench.Reference.Documents.{Field, Read, Calibration, File}

-- the manifest of the container's packages
pub record ContainerManifest : Type 0 where
  pub sha256 : String
  pub lines : List String

-- what `.get` gives for the installer's manifest
pub record InstallerManifest : Type 0 where
  pub iso_sha256 : Field
  pub iso_size_bytes : Field
  pub initrd_sha256 : Field
  pub grub_cfg_sha256 : Field
  pub xorriso_version : Field

pub record InventoryManifest : Type 0 where
  pub package_manifest_sha256 : Field
  pub package_count : Field

pub record CalibrationFile : Type 0 where
  pub path : String
  pub sha256 : String
  pub content : Read Calibration

-- What `realize_lock` finds. `packages` are the lines of the package list, split at the tabs; a
-- tool that is there gives the first line of its version.
pub record Shop : Type 0 where
  pub container : Option ContainerManifest
  pub is_blank : String → Bool
  pub installer : Option InstallerManifest
  pub image : Option File
  pub inventory : Option InventoryManifest
  pub packages : Option (List (List String))
  pub qemu : Option Field
  pub xorriso : Option Field
  pub ovmf : Option File
  pub rootfs : Option File
  pub oci_archive : Option File
  pub workload_manifest : Option File
  pub probe_manifest : Option File
  pub payload : Option File
  pub profile : String
  pub calibration : Option CalibrationFile
