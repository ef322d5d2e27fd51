-- ===== src/Reference/Realize/Ready.antt =====
-- The realized lock, read back by `preflight_reference`.
use os_bench.Reference.Realize.Resolved.{FindsSame, resolved_present, digests_bound, joined5}
use os_bench.Common.{
  String, ◌≡◌, refl, ap, ◌∙◌, Bool, true, false, List, [], ◌∷◌, ◌==◌, elem, Dict, keys, all,
  Bool-cases, inl, inr,
}
use os_bench.Common.Result.{ok, ok-injective}
use os_bench.Reference.Documents.{
  Field, text, is_set, get, mapping, Realized, Workspace, realized_lock,
}
use os_bench.Reference.Report.{Status, sections}
use os_bench.Reference.Preflight.{
  present, calibration_status, metadata_valid, source_sections_match, has_resolved_fields,
  artifacts_present, is_structural, is_bound, judge_realized, realized_status, preflight_reference,
}
use os_bench.Reference.Preflight.Calibrated.{calibration_status-IsCalibrated}
use os_bench.Reference.Preflight.Ready.{is_none-next_action}
use os_bench.Reference.Shop.{Shop}
use os_bench.Reference.Realize.{realized_fields, required_fields, realize_lock, realized_document}

module _ {Value : Type 0} (same : Value → Value → Bool) (shop : Shop) (w : Workspace Value) where
  realize_lock-materialized :
      (fields : Dict Field) (outcome : String × Dict Field)
      → realize_lock shop fields ≡ ok outcome
      → outcome.0 ≡ "materialized"
      → (realized_fields shop fields ≡ outcome.1)
        × (all (λ name. is_set (get name (realized_fields shop fields))) required_fields ≡ true)
  unfolding realize_lock
  realize_lock-materialized fields outcome returned materialized =
      elim (Bool-cases
        (all (λ name. elem name (keys (realized_fields shop fields))) required_fields)) [
          | inr lacking ↦ absurd (cc (rw (lacking, realize_lock) at returned))
          | inl listed ↦
              elim (Bool-cases
                (all (λ name. is_set (get name (realized_fields shop fields))) required_fields)) [
                  | inr unset ↦
                      let is = ok-injective (rw (listed, unset, realize_lock) at returned) in
                      absurd (
                        cc (
                          ap (λ (o : String × Dict Field). o.0 == "materialized") is,
                          ap (λ n. n == "materialized") materialized,
                        ))
                  | inl set ↦
                      let is = ok-injective (rw (listed, set, realize_lock) at returned) in
                      (ap (λ (o : String × Dict Field). o.1) is, set)
                ]
        ]

  all_present : (h : FindsSame same shop w) → artifacts_present same w true ≡ true
  unfolding artifacts_present
  all_present h =
      rw
        (
          h.image_here, h.payload_here, h.inventory_here, h.rootfs_here, h.archive_here,
          h.accepted_here,
        )
        refl

  sections_kept :
      (r : Realized Value)
      → r.section ≡ w.lock.section
      → ((v : Value) → same v v ≡ true)
      → source_sections_match same w true r ≡ true
  unfolding source_sections_match
  sections_kept r copied reflexive = rw copied (every sections)
    where
      every :
          (names : List String)
          → all (λ name. same (w.lock.section name) (w.lock.section name)) names ≡ true
      every [] = refl
      every (n ∷ ns) = rw (reflexive (w.lock.section n)) (every ns)

  structural :
      (fields : Dict Field) (status : String) (h : FindsSame same shop w)
      → ((v : Value) → same v v ≡ true)
      → w.lock.benchmark_version ≡ text "0.1.0"
      → w.lock.reference_id ≡ text "debian-13.6-amd64-osbench-v0.1"
      → (h.rootfs.sha256 == "") ≡ false
      → (h.archive.sha256 == "") ≡ false
      → (calibration_status same w true).ready ≡ true
      → status ≡ "materialized"
      → all (λ name. is_set (get name (realized_fields shop fields))) required_fields ≡ true
      → is_structural same w true (realized_document w.lock (status, realized_fields shop fields))
        ≡ true
  unfolding is_structural metadata_valid
  structural fields status h reflexive version name rootfs archive calibrated materialized set =
      let r = realized_document w.lock (status, realized_fields shop fields) in
      let c = calibration_status-IsCalibrated same w calibrated in
      joined5 (metadata_valid same w true r) (source_sections_match same w true r)
        (has_resolved_fields same w true r.resolved) (artifacts_present same w true)
        (calibration_status same w true).ready (rw (version, name, materialized) refl)
        (sections_kept r refl reflexive)
        (resolved_present same shop w fields h c rootfs archive set) (all_present h) calibrated

  judged :
      (r : Realized Value)
      → is_structural same w true r ≡ true
      → is_bound same w true r.resolved ≡ true
      → (judge_realized same w true r).ready ≡ true
  unfolding judge_realized
  judged r sound linked = rw (sound, judge_realized, linked) refl

  realized_status-mapping :
      (r : Realized Value)
      → present same w true realized_lock ≡ true
      → w.realized_read ≡ mapping r
      → realized_status same w true ≡ judge_realized same w true r
  unfolding realized_status calibration_status
  realized_status-mapping r here found = rw (here, found, realized_status) refl

  -- A lock that is realized as "materialized" from the files that the preflight finds is one that
  -- the verifying preflight reports as materialized, if the calibration is ready, the lock is of
  -- this benchmark and its source lock valid, and the two archives, which the status does
  -- not ask for, are there.
  pub realize_lock-preflight :
      (fields : Dict Field) (outcome : String × Dict Field) (h : FindsSame same shop w)
      → ((v : Value) → same v v ≡ true)
      → w.lock.benchmark_version ≡ text "0.1.0"
      → w.lock.reference_id ≡ text "debian-13.6-amd64-osbench-v0.1"
      → (h.rootfs.sha256 == "") ≡ false
      → (h.archive.sha256 == "") ≡ false
      → w.source_lock_valid ≡ true
      → (calibration_status same w true).ready ≡ true
      → realize_lock shop fields ≡ ok outcome
      → outcome.0 ≡ "materialized"
      → present same w true realized_lock ≡ true
      → w.realized_read ≡ mapping (realized_document w.lock outcome)
      → (preflight_reference same w true).materialization_ready ≡ true
  unfolding preflight_reference
  realize_lock-preflight fields outcome h reflexive version name rootfs archive valid calibrated
        returned materialized here found =
      let (filled, set) = realize_lock-materialized fields outcome returned materialized in
      let c = calibration_status-IsCalibrated same w calibrated in
      let r = realized_document w.lock outcome in
      let sound : is_structural same w true r ≡ true = rw (← filled) (
        structural fields outcome.0 h reflexive version name rootfs archive calibrated materialized
          set) in
      let linked : is_bound same w true r.resolved ≡ true =
        rw (← filled) (digests_bound same shop w fields h c) in
      let ready =
        ap (λ (s : Status). s.ready) (realized_status-mapping r here found)
        ∙ judged r sound linked in
      is_none-next_action same w true ∙ rw (valid, ready) refl
