-- ===== src/Dataset/Generate.antt =====
-- `_family_schedule` and `generate_cases` of src/osbench/dataset.py.
use os_bench.Common.{
  ℕ, zero, suc, ◌+◌, ◌*◌, ◌%◌, String, Bool, ◌&&◌, List, [], ◌∷◌, ◌++◌, ◌==◌, length, nat_eq,
  if◌then◌else◌,
}
use os_bench.Common.Sort.{sort_by}
use os_bench.Common.Text.{concat, text_leb}
use os_bench.Common.Result.{Result, ok, ◌>>=◌}
use os_bench.Generators.{Template, Rng, CaseFields, GeneratedCase, item_at, generic_case}

abbrev pub public_family_counts : List (String × ℕ)
public_family_counts =
    ("primitive", 446)
    ∷ ("boundary", 401)
    ∷ ("state_transition", 323)
    ∷ ("composition", 402)
    ∷ ("concurrency", 187)
    ∷ ("isolation", 36)
    ∷ ("failure", 357)
    ∷ ("persistence", 78)
    ∷ ("exhaustion", 265)
    ∷ ("workload", 92)
    ∷ ("performance", 73)
    ∷ []

abbrev pub case_families : List String
case_families =
    "primitive" ∷ "boundary" ∷ "state_transition" ∷ "composition" ∷ "concurrency" ∷ "isolation"
    ∷ "failure" ∷ "persistence" ∷ "exhaustion" ∷ "workload" ∷ "performance" ∷ []

-- `sum(PUBLIC_FAMILY_COUNTS.values())`
abbrev pub sum_counts : List (String × ℕ) → ℕ
sum_counts [] = 0
sum_counts ((family, n) ∷ counts) = n + sum_counts counts

abbrev pub repeat {ℓ} : {A : Type ℓ} → ℕ → A → List A
repeat zero a = []
repeat (suc n) a = a ∷ repeat n a

unfoldable pub repeat_all : List (String × ℕ) → List String
repeat_all [] = []
repeat_all ((family, n) ∷ counts) = repeat n family ++ repeat_all counts

-- `CASE_FAMILIES[i % len(CASE_FAMILIES)]`, where the list is not empty
abbrev pub family_at : ℕ → List String → String
family_at i [] = "primitive"
family_at zero (family ∷ families) = family
family_at (suc i) (family ∷ families) = family_at i families

-- the families for the numbers from `i` on
unfoldable pub round_robin : ℕ → ℕ → List String
round_robin i zero = []
round_robin i (suc n) = family_at (i % length case_families) case_families ∷ round_robin (suc i) n

-- before the shuffle
unfoldable pub family_list : ℕ → String → List String
family_list total profile =
    if profile == "public" && nat_eq total (sum_counts public_family_counts)
    then repeat_all public_family_counts
    else round_robin 0 total

-- `range(n)` from `i` on
abbrev pub indices_from : ℕ → ℕ → List ℕ
indices_from i zero = []
indices_from i (suc n) = i ∷ indices_from (suc i) n

-- `contracts or load_contracts()`
abbrev pub contracts_or : List Template → List Template → List Template
contracts_or [] loaded = loaded
contracts_or (t ∷ ts) loaded = t ∷ ts

abbrev pub id_leb : Template → Template → Bool
id_leb t s = text_leb t.contract.id s.contract.id

-- What the program takes from Python's libraries: `shuffle` is that of the generator of a seed,
-- `case_number` the first 8 bytes of a text's SHA-256, `digest` the case's.
pub record Library : Type 0 where
  pub rng : Rng
  pub shuffle : ℕ → List String → List String
  pub case_number : String → ℕ
  pub digest : CaseFields → String
  pub shown : ℕ → String
  pub exclusive_or : ℕ → ℕ → ℕ

module _ (library : Library) (profile : String) (seed : ℕ) where
  unfoldable pub family_schedule : ℕ → List String
  family_schedule total =
      library.shuffle (library.exclusive_or seed 5979665) (family_list total profile)

  abbrev pub case_seed : Template → ℕ → ℕ
  case_seed t index = library.case_number (
      concat
        (library.shown seed ∷ ":" ∷ t.contract.id ∷ ":" ∷ library.shown index ∷ ":" ∷ profile ∷ []))

  -- the two loops: over the items, and over the indices of one, from a cursor on
  unfoldable pub cases_of : List String → Template → List ℕ → ℕ → Result (List GeneratedCase × ℕ)
  cases_of schedule t [] cursor = ok ([], cursor)
  cases_of schedule t (index ∷ indices) cursor = item_at cursor schedule >>= λ family.
      generic_case library.rng library.digest t (case_seed t index) family index profile >>= λ c.
      cases_of schedule t indices (cursor + 1) >>= λ (cases, after). ok (c ∷ cases, after)

  unfoldable pub all_cases : List String → ℕ → List Template → ℕ → Result (List GeneratedCase)
  all_cases schedule cases_per_contract [] cursor = ok []
  all_cases schedule cases_per_contract (t ∷ items) cursor =
      cases_of schedule t (indices_from 0 cases_per_contract) cursor >>= λ (cases, after).
      all_cases schedule cases_per_contract items after >>= λ others. ok (cases ++ others)

  unfoldable pub generate_cases : List Template → List Template → ℕ → Result (List GeneratedCase)
  generate_cases loaded contracts cases_per_contract =
      let items = sort_by id_leb (contracts_or contracts loaded) in
      all_cases (family_schedule (length items * cases_per_contract)) cases_per_contract items 0
