-- ===== src/Reference/Realize/Fields.antt =====
-- What the realized fields hold at the keys that the preflight reads.
use os_bench.Common.{
  String, ◌≡◌, refl, ap, ◌∙◌, ◌⊎◌, drop, take, false, List, [], ◌∷◌, ◌++◌, ◌==◌, eq_refl, elem,
  Option, none, some, Dict, keys, insert, lookup-insert, Bool-cases, inl, inr, arith, if◌then◌else◌,
}
use os_bench.Reference.Documents.{Field, text, get, File, Read-cases, Calibration}
use os_bench.Reference.Shop.{Shop, CalibrationFile}
use os_bench.Reference.Realize.{
  bound_fields, tool_field, is_bound_calibration, update, file_field, calibration_fields,
  realized_artifacts, realized_fields,
}

get-insert :
    (k j : String) (v : Field) (m : Dict Field)
    → get j (insert k v m) ≡ (if j == k then v else get j m)
get-insert k j v m = elim (Bool-cases (j == k)) [
  | inl e ↦ rw (e, get, lookup-insert k j v m, e) refl
  | inr e ↦ rw (e, get, lookup-insert k j v m, e) refl
]

pub get-update_other :
    (j : String) (changes m : Dict Field)
    → elem j (keys changes) ≡ false
    → get j (update changes m) ≡ get j m
get-update_other j [] m h = refl
get-update_other j ((k, v) ∷ rest) m h =
    get-update_other j rest (insert k v m) (ground arith)
    ∙ (get-insert k j v m ∙ (let e : (j == k) ≡ false = ground arith in rw e refl))

get-update_set :
    (j : String) (v : Field) (rest m : Dict Field)
    → elem j (keys rest) ≡ false
    → get j (update ((j, v) ∷ rest) m) ≡ v
get-update_set j v rest m untouched =
    get-update_other j rest (insert j v m) untouched ∙ (get-insert j j v m ∙ rw (eq_refl j) refl)

update-append : (a b m : Dict Field) → update (a ++ b) m ≡ update b (update a m)
update-append [] b m = refl
update-append ((k, v) ∷ a) b m = update-append a b (insert k v m)

-- changes that come first and leave the key alone
pub get-update_first :
    (j : String) (a b m : Dict Field) (v : Field)
    → ((n : Dict Field) → get j (update b n) ≡ v)
    → get j (update (a ++ b) m) ≡ v
get-update_first j a b m v h = ap (get j) (update-append a b m) ∙ h (update a m)

-- changes that come last and leave the key alone
pub get-update_last :
    (j : String) (a b m : Dict Field) (v : Field)
    → elem j (keys b) ≡ false
    → get j (update a m) ≡ v
    → get j (update (a ++ b) m) ≡ v
get-update_last j a b m v untouched h =
    ap (get j) (update-append a b m) ∙ (get-update_other j b (update a m) untouched ∙ h)

pub elem-keys-append :
    (j : String) (a b : Dict Field)
    → elem j (keys a) ≡ false
    → elem j (keys b) ≡ false
    → elem j (keys (a ++ b)) ≡ false
elem-keys-append j [] b x y = y
elem-keys-append j ((k, v) ∷ a) b x y = ground (arith, elem-keys-append j a b)

pub file_field_other :
    (j name : String) (o : Option File)
    → (j == name) ≡ false
    → elem j (keys (file_field name o)) ≡ false
file_field_other j name none h = refl
file_field_other j name (some f) h = ground arith

pub tool_field_other :
    (j name : String) (o : Option Field)
    → (j == name) ≡ false
    → elem j (keys (tool_field name o)) ≡ false
tool_field_other j name none h = refl
tool_field_other j name (some f) h = ground arith

pub file_field_same :
    (name : String) (o : Option File) (f : File)
    → o ≡ some f
    → (m : Dict Field) → get name (update (file_field name o) m) ≡ text f.sha256
file_field_same name o f found m =
    rw found (get-insert name name (text f.sha256) m ∙ rw (eq_refl name) refl)

-- the keys that the calibration fills in
abbrev pub calibration_keys : List String
calibration_keys =
    "unsynced_outcome_calibration_profile" ∷ "unsynced_outcome_calibration_path"
    ∷ "unsynced_outcome_calibration_sha256" ∷ "unsynced_outcome_calibration_trial_count"
    ∷ "unsynced_outcome_calibration_outcomes" ∷ []

module _ (shop : Shop) where
  -- Either no calibration is bound, and nothing is filled in for it, or one is.
  pub calibration_fields-cases :
      (fields : Dict Field) (o : Option CalibrationFile)
      → (calibration_fields shop fields o ≡ [])
        ⊎ ((c : CalibrationFile) × (d : Calibration) × (o ≡ some c)
            × (calibration_fields shop fields o ≡ bound_fields shop c d))
  unfolding calibration_fields
  calibration_fields-cases fields none = inl refl
  calibration_fields-cases fields (some c) = elim (Read-cases c.content) [
    | inr (inl broken) ↦ inl (rw (broken, calibration_fields) refl)
    | inr (inr shapeless) ↦ inl (rw (shapeless, calibration_fields) refl)
    | inl (d, found) ↦ elim (Bool-cases (is_bound_calibration shop fields d)) [
      | inr loose ↦ inl (rw (found, loose, calibration_fields) refl)
      | inl linked ↦ inr (c, d, refl, rw (found, linked, calibration_fields) refl)
    ]
  ]

  pub bound_profile :
      (c : CalibrationFile) (d : Calibration) (m : Dict Field)
      → get "unsynced_outcome_calibration_profile" (update (bound_fields shop c d) m)
        ≡ text shop.profile
  bound_profile c d m =
      get-update_set "unsynced_outcome_calibration_profile" (text shop.profile)
        (drop 1 (bound_fields shop c d)) m refl

  pub bound_digest :
      (c : CalibrationFile) (d : Calibration) (m : Dict Field)
      → get "unsynced_outcome_calibration_sha256" (update (bound_fields shop c d) m) ≡ text c.sha256
  bound_digest c d m =
      get-update_set "unsynced_outcome_calibration_sha256" (text c.sha256)
        (drop 3 (bound_fields shop c d)) (update (take 2 (bound_fields shop c d)) m) refl

  -- the calibration touches no other digest
  pub unbound :
      (fields : Dict Field) (j : String)
      → elem j calibration_keys ≡ false
      → get j (realized_fields shop fields) ≡ get j (realized_artifacts shop fields)
  unfolding realized_fields
  unbound fields j h =
      elim (calibration_fields-cases (realized_artifacts shop fields) shop.calibration) [
        | inl nothing ↦ rw (nothing, realized_fields) refl
        | inr (c, d, found, bound) ↦
            rw (bound, realized_fields)
              (get-update_other j (bound_fields shop c d) (realized_artifacts shop fields) h)
      ]
