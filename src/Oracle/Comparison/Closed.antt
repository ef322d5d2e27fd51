-- ===== src/Oracle/Comparison/Closed.antt =====
-- The comparison of observations fails closed.
use os_bench.Common.{
  String, ◌≡◌, refl, ap, ◌↔◌, Bool, true, false, Option, none, some, eq_iff, Bool-cases, inl, inr,
  if◌then◌else◌,
}
use os_bench.Oracle.Comparison.{
  Values, observation_mismatch, agrees, compare, compare_observations, is_ok, kind_of,
}

is_ok_of : (s : Option String) → is_ok s ≡ true → s ≡ some "ok"
is_ok_of none h = absurd (cc h)
is_ok_of (some s) h = ap some ((eq_iff s "ok").0 h)

ok-is_ok : (s : Option String) → s ≡ some "ok" → is_ok s ≡ true
ok-is_ok s h = rw h refl

reported {ℓ} :
    {A : Type ℓ} (agreed : Bool) (d : A)
    → ((if agreed then none else some d) ≡ none) ↔ (agreed ≡ true)
reported true d = (λ h. refl, λ h. refl)
reported false d = (λ h. absurd (cc h), λ h. absurd (cc h))

-- A case passes exactly if both observations have the status "ok" and their normal forms agree
-- under the Contract's equivalence, which is "exact" where none is given; and a case has a
-- difference to report exactly if it does not pass.
pub compare_observations_fails_closed {ℓ} :
    {Value Observation : Type ℓ} (values : Values Value Observation)
    (reference candidate : Observation) (equivalence : Option String)
    → (((compare_observations values reference candidate equivalence).0 ≡ true) ↔ (
        (values.status reference ≡ some "ok")
        × (values.status candidate ≡ some "ok")
        × (agrees values
              (kind_of equivalence)
              (values.normalize reference)
              (values.normalize candidate)
            ≡ true)))
      × (((compare_observations values reference candidate equivalence).1 ≡ none)
          ↔ ((compare_observations values reference candidate equivalence).0 ≡ true))
unfolding compare_observations compare
compare_observations_fails_closed values r c e = elim (Bool-cases (is_ok (values.status r))) [
  | inr bad ↦ rw bad (
    (λ h. absurd (cc h), λ (x, y, z). absurd (cc (bad, ok-is_ok _ x))),
    (λ h. absurd (cc h), λ h. absurd (cc h)),
  )
  | inl good ↦ elim (Bool-cases (is_ok (values.status c))) [
    | inr bad ↦
        rw (good, bad)
          (
            (λ h. absurd (cc h), λ (x, y, z). absurd (cc (bad, ok-is_ok _ y))),
            (λ h. absurd (cc h), λ h. absurd (cc h)),
          )
    | inl good' ↦
        rw (good, good')
          (
            (λ h. (is_ok_of _ good, is_ok_of _ good', h), λ (x, y, z). z),
            reported (agrees values (kind_of e) (values.normalize r) (values.normalize c))
                (observation_mismatch (values.normalize r) (values.normalize c) (kind_of e)),
          )
  ]
]
