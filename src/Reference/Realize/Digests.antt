-- ===== src/Reference/Realize/Digests.antt =====
-- The digests among the realized fields.
use os_bench.Common.{
  String, ◌≡◌, refl, ◌∙◌, false, List, elem, Option, none, some, Dict, keys, Bool-cases, inl, inr,
}
use os_bench.Reference.Documents.{Field, text, is_set, get, File}
use os_bench.Reference.Realize.Fields.{
  get-update_other, get-update_first, get-update_last, elem-keys-append, file_field_other,
  tool_field_other, file_field_same, unbound,
}
use os_bench.Reference.Shop.{Shop, InventoryManifest}
use os_bench.Reference.Realize.{
  update, file_field, container_fields, installer_fields, inventory_fields, package_fields,
  xorriso_field, system_fields, artifact_fields, realized_artifacts, realized_fields,
}

module _ (shop : Shop) where
  pub rootfs_realized :
      (fields : Dict Field) (f : File)
      → shop.rootfs ≡ some f
      → get "oci_rootfs_sha256" (realized_fields shop fields) ≡ text f.sha256
  unfolding realized_artifacts artifact_fields
  rootfs_realized fields f found =
      unbound shop fields "oci_rootfs_sha256" refl
      ∙ get-update_first "oci_rootfs_sha256" (file_field "ovmf_sha256" shop.ovmf) _ _
          (text f.sha256)
          (λ n.
            get-update_last "oci_rootfs_sha256" (file_field "oci_rootfs_sha256" shop.rootfs) _ n
              (text f.sha256)
              (elem-keys-append _ (file_field "oci_archive_sha256" shop.oci_archive) _
                (file_field_other _ _ shop.oci_archive refl)
                (elem-keys-append _
                  (file_field "workload_fixture_manifest_sha256" shop.workload_manifest) _
                  (file_field_other _ _ shop.workload_manifest refl)
                  (elem-keys-append _ (file_field "raw_probe_manifest_sha256" shop.probe_manifest) _
                    (file_field_other _ _ shop.probe_manifest refl)
                    (file_field_other _ _ shop.payload refl))))
              (file_field_same "oci_rootfs_sha256" shop.rootfs f found n))

  pub archive_realized :
      (fields : Dict Field) (f : File)
      → shop.oci_archive ≡ some f
      → get "oci_archive_sha256" (realized_fields shop fields) ≡ text f.sha256
  unfolding realized_artifacts artifact_fields
  archive_realized fields f found =
      unbound shop fields "oci_archive_sha256" refl
      ∙ get-update_first "oci_archive_sha256" (file_field "ovmf_sha256" shop.ovmf) _ _
          (text f.sha256)
          (λ n.
            get-update_first "oci_archive_sha256" (file_field "oci_rootfs_sha256" shop.rootfs) _ n
              (text f.sha256)
              (λ n.
                get-update_last "oci_archive_sha256"
                  (file_field "oci_archive_sha256" shop.oci_archive) _ n (text f.sha256)
                  (elem-keys-append _
                    (file_field "workload_fixture_manifest_sha256" shop.workload_manifest) _
                    (file_field_other _ _ shop.workload_manifest refl)
                    (elem-keys-append _ (file_field "raw_probe_manifest_sha256" shop.probe_manifest)
                      _ (file_field_other _ _ shop.probe_manifest refl)
                      (file_field_other _ _ shop.payload refl)))
                  (file_field_same "oci_archive_sha256" shop.oci_archive f found n)))

  pub payload_kept :
      (fields : Dict Field) (f : File)
      → shop.payload ≡ some f
      → get "payload_sha256" (realized_artifacts shop fields) ≡ text f.sha256
  unfolding realized_artifacts artifact_fields
  payload_kept fields f found =
      get-update_first "payload_sha256" (file_field "ovmf_sha256" shop.ovmf) _ _ (text f.sha256)
        (λ n.
          get-update_first "payload_sha256" (file_field "oci_rootfs_sha256" shop.rootfs) _ n
            (text f.sha256)
            (λ n.
              get-update_first "payload_sha256" (file_field "oci_archive_sha256" shop.oci_archive) _
                n (text f.sha256)
                (λ n.
                  get-update_first "payload_sha256"
                    (file_field "workload_fixture_manifest_sha256" shop.workload_manifest) _ n
                    (text f.sha256)
                    (λ n.
                      get-update_first "payload_sha256"
                        (file_field "raw_probe_manifest_sha256" shop.probe_manifest) _ n
                        (text f.sha256)
                        (λ n. file_field_same "payload_sha256" shop.payload f found n)))))

  inventory_other :
      (o : Option InventoryManifest) → elem "image_sha256" (keys (inventory_fields shop o)) ≡ false
  unfolding inventory_fields
  inventory_other none = refl
  inventory_other (some m) = refl

  package_other :
      (o : Option (List (List String))) → elem "image_sha256" (keys (package_fields shop o)) ≡ false
  unfolding package_fields
  package_other none = refl
  package_other (some rows) = refl

  xorriso_other : (m : Dict Field) → elem "image_sha256" (keys (xorriso_field shop m)) ≡ false
  unfolding xorriso_field
  xorriso_other m = elim (Bool-cases (is_set (get "xorriso_version" m))) [
    | inl set ↦ rw (set, xorriso_field) refl
    | inr unset ↦
        rw (unset, xorriso_field)
          (tool_field_other "image_sha256" "xorriso_version" shop.xorriso refl)
  ]

  artifacts_other : elem "image_sha256" (keys (artifact_fields shop)) ≡ false
  unfolding artifact_fields
  artifacts_other =
      elem-keys-append _ (file_field "ovmf_sha256" shop.ovmf) _
        (file_field_other _ _ shop.ovmf refl)
        (elem-keys-append _ (file_field "oci_rootfs_sha256" shop.rootfs) _
          (file_field_other _ _ shop.rootfs refl)
          (elem-keys-append _ (file_field "oci_archive_sha256" shop.oci_archive) _
            (file_field_other _ _ shop.oci_archive refl)
            (elem-keys-append _
              (file_field "workload_fixture_manifest_sha256" shop.workload_manifest) _
              (file_field_other _ _ shop.workload_manifest refl)
              (elem-keys-append _ (file_field "raw_probe_manifest_sha256" shop.probe_manifest) _
                (file_field_other _ _ shop.probe_manifest refl)
                (file_field_other _ _ shop.payload refl)))))

  image_of_system :
      (fields : Dict Field) (f : File)
      → shop.image ≡ some f
      → get "image_sha256" (update (system_fields shop) fields) ≡ text f.sha256
  unfolding system_fields
  image_of_system fields f found =
      get-update_first "image_sha256" (container_fields shop shop.container) _ fields
        (text f.sha256)
        (λ n.
          get-update_first "image_sha256" (installer_fields shop shop.installer) _ n (text f.sha256)
            (λ n.
              get-update_last "image_sha256" (file_field "image_sha256" shop.image) _ n
                (text f.sha256)
                (elem-keys-append _ (inventory_fields shop shop.inventory) _
                  (inventory_other shop.inventory)
                  (elem-keys-append _ (package_fields shop shop.packages) _
                    (package_other shop.packages) (tool_field_other _ _ shop.qemu refl)))
                (file_field_same "image_sha256" shop.image f found n)))

  pub image_kept :
      (fields : Dict Field) (f : File)
      → shop.image ≡ some f
      → get "image_sha256" (realized_artifacts shop fields) ≡ text f.sha256
  unfolding realized_artifacts
  image_kept fields f found =
      let first = update (system_fields shop) fields in
      get-update_other "image_sha256" (artifact_fields shop)
        (update (xorriso_field shop first) first) artifacts_other
      ∙ (get-update_other "image_sha256" (xorriso_field shop first) first (xorriso_other first)
          ∙ image_of_system fields f found)
