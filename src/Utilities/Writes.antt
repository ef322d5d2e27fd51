-- ===== src/Utilities/Writes.antt =====
-- `_atomic_write` of src/osbench/util.py writes all or nothing.
use os_bench.Common.{
  String, ◌≡◌, refl, ◌⊎◌, inl, inr, true, false, Option, none, some, ◌==◌, eq_refl, eq_iff,
  Bool-cases, Option-cases, sym,
}
use os_bench.Common.Result.{ok, err, Error, os_error}
use os_bench.Utilities.{Files, Failures, Wrote, set_file, remove_temporary, atomic_write}

-- the files but one
abbrev Same : Files → Files → Type 0
Same after before = (p : String) → after p ≡ before p

set_set :
    (temporary : String) (content : Option String) (files : Files)
    → files temporary ≡ none
    → Same (set_file temporary none (set_file temporary content files)) files
set_set temporary content files fresh p = elim (Bool-cases (p == temporary)) [
  | inl is ↦ let same : p ≡ temporary = (eq_iff p temporary).0 is in rw (is) (rw (same) (sym fresh))
  | inr other ↦ rw (other) refl
]

-- A failed write leaves no trace, or the temporary file alone, which could not be removed.
abbrev pub Undone : Failures → String → Files → Wrote → Type 0
Undone failures temporary files wrote =
    ((e : Error) × (wrote.outcome ≡ err e) × ((p : String) → wrote.files p ≡ files p))
    ⊎ ((failures.unlink ≡ true)
        × (wrote.outcome ≡ err (os_error "unlink"))
        × ((p : String) → wrote.files p ≡ set_file temporary (wrote.files temporary) files p))

left_over :
    (temporary content : String) (files : Files) (p : String)
    → set_file temporary (some content) files p
      ≡ set_file temporary (set_file temporary (some content) files temporary) files p
left_over temporary content files p = rw (eq_refl temporary) refl

-- after a failure
remove_temporary-Undone :
    (failures : Failures) (temporary content : String) (files : Files) (e : Error)
    → files temporary ≡ none
    → Undone failures temporary files
        (remove_temporary failures temporary (err e) (set_file temporary (some content) files))
remove_temporary-Undone failures temporary content files e fresh =
    elim (Bool-cases failures.unlink) [
      | inl stuck ↦
          rw (eq_refl temporary, stuck) (inr (refl, refl, left_over temporary content files))
      | inr gone ↦
          rw (eq_refl temporary, gone) (inl (e, refl, set_set temporary (some content) files fresh))
    ]

moved :
    (path temporary payload : String) (files : Files)
    → files temporary ≡ none
    → Same
        (set_file path
          (some payload)
          (set_file temporary none (set_file temporary (some payload) files)))
        (set_file path (some payload) files)
moved path temporary payload files fresh p = elim (Bool-cases (p == path)) [
  | inl is ↦ rw (is) refl
  | inr other ↦ rw (other) (set_set temporary (some payload) files fresh p)
]

-- The write returns, and then the path has the payload and every other path what it had; or it
-- raises, and every path has what it had, except that the temporary file stays if it cannot be
-- removed. The temporary file must be new and not at the path.
pub atomic_write_all_or_nothing :
    (failures : Failures) (path temporary payload : String) (files : Files)
    → files temporary ≡ none
    → temporary == path ≡ false
    → let wrote = atomic_write failures path temporary payload files in
      ((wrote.outcome ≡ ok tt)
        × ((p : String) → wrote.files p ≡ set_file path (some payload) files p))
      ⊎ Undone failures temporary files wrote
unfolding atomic_write
atomic_write_all_or_nothing failures path temporary payload files fresh apart =
    elim (Option-cases failures.write) [
      | inr (part, failed) ↦
          rw (failed, atomic_write)
            (inr (remove_temporary-Undone failures temporary part files (os_error "write") fresh))
      | inl written ↦ elim (Bool-cases failures.sync) [
        | inl failed ↦
            rw (written, failed, atomic_write)
              (inr
                (remove_temporary-Undone failures temporary payload files (os_error "fsync") fresh))
        | inr synced ↦ elim (Bool-cases failures.replace) [
          | inl failed ↦
              rw (written, synced, failed, atomic_write)
                (inr (
                  remove_temporary-Undone failures temporary payload files (os_error "replace")
                    fresh))
          | inr replaced ↦
              rw (written, synced, replaced, atomic_write)
                (inl (
                  rw (apart, eq_refl temporary) refl,
                  λ p. rw (apart, eq_refl temporary) (moved path temporary payload files fresh p),
                ))
        ]
      ]
    ]
