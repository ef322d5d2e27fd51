-- ===== src/Scoring/Levels.antt =====
-- Which Contracts stand at a level.
use os_bench.Common.{
  String, ◌≡◌, refl, ap, ◌∙◌, ◌↔◌, Bool, true, false, [], ◌∷◌, arith, ◌==◌, eq_iff, elem, nodup,
  Dict, keys, lookup, Option, none, some, Option-cases, inl, inr,
}
use os_bench.Common.Sort.{elem-sorted}
use os_bench.Contracts.Model.{Contract}
use os_bench.Scoring.{select_level, ids_of_level}

abbrev pub at_level : String → Option Contract → Bool
at_level level none = false
at_level level (some contract) = contract.level == level

elem-select_level_new :
    (level k : String) (contracts : Dict Contract)
    → elem k (keys contracts) ≡ false
    → elem k (select_level level contracts) ≡ false
unfolding select_level
elem-select_level_new level k [] h = refl
elem-select_level_new level k ((j, c) ∷ rest) h = ground (arith, elem-select_level_new level k rest)

elem-select_level :
    (level k : String) (contracts : Dict Contract)
    → nodup (keys contracts) ≡ true
    → elem k (select_level level contracts) ≡ at_level level (lookup k contracts)
unfolding select_level
elem-select_level level k [] h = refl
elem-select_level level k ((j, c) ∷ rest) h =
    ground (arith, elem-select_level level k rest, elem-select_level_new level k rest, eq_iff k j)

pub elem-ids_of_level :
    (level k : String) (contracts : Dict Contract)
    → nodup (keys contracts) ≡ true
    → elem k (ids_of_level level contracts) ≡ at_level level (lookup k contracts)
unfolding ids_of_level
elem-ids_of_level level k contracts h =
    elem-sorted k (select_level level contracts) ∙ elem-select_level level k contracts h

-- a Contract of the level
abbrev pub IsAtLevel : String → Dict Contract → String → Type 0
IsAtLevel level contracts k =
    (contract : Contract) × (lookup k contracts ≡ some contract) × (contract.level ≡ level)

pub at_level-IsAtLevel :
    (level k : String) (contracts : Dict Contract)
    → (at_level level (lookup k contracts) ≡ true) ↔ IsAtLevel level contracts k
at_level-IsAtLevel level k contracts = elim (Option-cases (lookup k contracts)) [
  | inl e ↦ rw e (λ h. absurd (cc h), λ (c, e', l). absurd (cc e'))
  | inr (contract, e) ↦ rw e (
    λ h. (contract, refl, (eq_iff contract.level level).0 h),
    λ (c, e', l).
        let same : contract ≡ c = cc e' in
        (eq_iff contract.level level).1 (ap (λ (x : Contract). x.level) same ∙ l),
  )
]
