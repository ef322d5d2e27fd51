-- ===== src/Generators/Limits.antt =====
-- What holds of every case that `generic_case` (src/osbench/generators.py) makes.
use os_bench.Common.{
  ℕ, zero, suc, ◌*◌, ◌≤◌, ◌<◌, min, max, String, ◌≡◌, refl, List, [], ◌∷◌, length, arith,
}
use os_bench.Common.Result.{ok}
use os_bench.Generators.{
  Template, Rng, CaseFields, GeneratedCase, scales, item_at, or_else, difficulty_of, case_fields,
  with_id, generic_case,
}

pub item_at-less :
    {A : Type 0} (n : ℕ) (xs : List A) → n < length xs → (x : A) × (item_at n xs ≡ ok x)
item_at-less n [] h = absurd (ground (arith, h))
item_at-less zero (x ∷ xs) h = (x, refl)
item_at-less (suc n) (x ∷ xs) h = item_at-less n xs (ground arith)

-- the limits of a case
pub record IsLimited (c : GeneratedCase) : Type 0 where
  pub memory_at_least : 16 ≤ c.fields.memory_mb
  pub memory_at_most : c.fields.memory_mb ≤ 512
  pub processes_at_least : 4 ≤ c.fields.processes
  pub processes_at_most : c.fields.processes ≤ 128
  pub files_at_least : 8 ≤ c.fields.files
  pub files_at_most : c.fields.files ≤ 1024

clamp : (low high n : ℕ) → low ≤ high → (low ≤ max low (min high n)) × (max low (min high n) ≤ high)
clamp low high n h = (ground arith, ground arith)

module _ (rng : Rng) (digest : CaseFields → String) where
  -- What a case that was made is about.
  pub record IsCaseOf (t : Template) (drawn_by : ℕ) (kind : String) (place : ℕ) (c : GeneratedCase)
      : Type 0 where
    pub contract : c.fields.contract ≡ t.contract.id
    pub family : c.fields.family ≡ kind
    pub index : c.fields.index ≡ place
    pub seed : c.fields.seed ≡ drawn_by
    pub limited : IsLimited c

  -- With a family that has a difficulty, and an index of the eight scales drawn, a case is made.
  pub generic_case_returns :
      (t : Template) (seed : ℕ) (family : String) (index : ℕ) (profile difficulty : String)
      → rng.scale_index seed < 8
      → difficulty_of family ≡ ok difficulty
      → (c : GeneratedCase) × (generic_case rng digest t seed family index profile ≡ ok c)
        × IsCaseOf t seed family index c
  unfolding generic_case
  generic_case_returns t seed family index profile difficulty h known =
      let (scale, drawn) = item_at-less (rng.scale_index seed) scales h in
      let (m, m') = clamp 16 512 (or_else scale 16) (ground arith) in
      let (p, p') = clamp 4 128 (or_else scale 4) (ground arith) in
      let (f, f') = clamp 8 1024 (or_else scale 8 * 2) (ground arith) in
      (
        with_id rng digest (case_fields rng digest t seed family index profile scale difficulty),
        rw (drawn, known, generic_case) refl,
        record {
          contract = refl;
          family = refl;
          index = refl;
          seed = refl;
          limited = record {
            memory_at_least = m;
            memory_at_most = m';
            processes_at_least = p;
            processes_at_most = p';
            files_at_least = f;
            files_at_most = f';
          };
        },
      )
