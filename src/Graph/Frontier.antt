-- ===== src/Graph/Frontier.antt =====
-- `frontier` of src/osbench/graph.py: what can be attempted next.
use os_bench.Common.{
  String, ◌≡◌, refl, ◌∙◌, sym, ◌↔◌, Bool, true, false, not, ◌&&◌, List, [], ◌∷◌, arith, eq_iff,
  eq_refl, Option-cases, inl, inr, if◌then◌else◌, elem, Dict, keys, lookup, Option, none, some, all,
  nodup,
}
use os_bench.Common.Sort.{sorted, elem-sorted}
use os_bench.Contracts.Model.{Contract}

-- A value of `result["contracts"]`: a mapping, with whether its `passed` is `True`, or anything
-- else.
pub data ContractEntry : Type 0 where
  mapping : Bool → ContractEntry
  other : ContractEntry

abbrev pub entry_passed : ContractEntry → Bool
entry_passed (mapping passed) = passed
entry_passed other = false

unfoldable pub passed_ids : Dict ContractEntry → List String
passed_ids [] = []
passed_ids ((identifier, value) ∷ rest) =
    let others = passed_ids rest in if entry_passed value then identifier ∷ others else others

abbrev pub available : List String → String → Contract → Bool
available passed identifier contract =
    not (elem identifier passed)
    && all (λ dependency. elem dependency passed) contract.prerequisites

unfoldable pub available_ids : List String → Dict Contract → List String
available_ids passed [] = []
available_ids passed ((identifier, contract) ∷ rest) =
    let others = available_ids passed rest in
    if available passed identifier contract then identifier ∷ others else others

unfoldable pub frontier : Dict Contract → Dict ContractEntry → List String
unfolding available_ids passed_ids
frontier contracts contract_results = sorted (available_ids (passed_ids contract_results) contracts)

available_of : List String → String → Option Contract → Bool
available_of passed identifier none = false
available_of passed identifier (some contract) = available passed identifier contract

elem-available_ids_new :
    (passed : List String) (identifier : String) (contracts : Dict Contract)
    → elem identifier (keys contracts) ≡ false
    → elem identifier (available_ids passed contracts) ≡ false
unfolding available_ids
elem-available_ids_new passed i [] h = refl
elem-available_ids_new passed i ((j, c) ∷ rest) h =
    ground (arith, elem-available_ids_new passed i rest)

elem-available_ids :
    (passed : List String) (identifier : String) (contracts : Dict Contract)
    → nodup (keys contracts) ≡ true
    → elem identifier (available_ids passed contracts)
      ≡ available_of passed identifier (lookup identifier contracts)
unfolding available_ids available_of
elem-available_ids passed i [] h = refl
elem-available_ids passed i ((j, c) ∷ rest) h =
    ground
      (arith, elem-available_ids passed i rest, elem-available_ids_new passed i rest, eq_iff i j)

elem-passed_ids_new :
    (identifier : String) (results : Dict ContractEntry)
    → elem identifier (keys results) ≡ false
    → elem identifier (passed_ids results) ≡ false
unfolding passed_ids
elem-passed_ids_new i [] h = refl
elem-passed_ids_new i ((j, v) ∷ rest) h = ground (arith, elem-passed_ids_new i rest)

-- Whether the results record that the Contract passed.
abbrev pub has_passed : Dict ContractEntry → String → Bool
has_passed results identifier = elim (lookup identifier results) [
  | none ↦ false
  | some value ↦ entry_passed value
]

elem-passed_ids :
    (identifier : String) (results : Dict ContractEntry)
    → nodup (keys results) ≡ true
    → elem identifier (passed_ids results) ≡ has_passed results identifier
unfolding passed_ids
elem-passed_ids i [] h = refl
elem-passed_ids i ((j, v) ∷ rest) h =
    ground (arith, elem-passed_ids i rest, elem-passed_ids_new i rest, eq_iff i j)

all_passed_elem :
    (passed ds : List String)
    → all (λ d. elem d passed) ds ≡ true
    → (d : String) → elem d ds ≡ true
    → elem d passed ≡ true
all_passed_elem passed [] h d m = absurd (cc m)
all_passed_elem passed (x ∷ xs) h d m =
    ground (arith, all_passed_elem passed xs (ground arith) d, eq_iff d x)

all_passed_of_elem :
    (passed ds : List String)
    → ((d : String) → elem d ds ≡ true → elem d passed ≡ true)
    → all (λ d. elem d passed) ds ≡ true
all_passed_of_elem passed [] h = refl
all_passed_of_elem passed (x ∷ xs) h =
    let others = all_passed_of_elem passed xs (λ d m. h d (ground arith)) in
    ground (arith, others, h x, eq_refl x)

abbrev IsAvailable : Dict Contract → Dict ContractEntry → String → Type 0
IsAvailable contracts results i =
    (contract : Contract) × (lookup i contracts ≡ some contract)
    × (has_passed results i ≡ false)
    × ((d : String) → elem d contract.prerequisites ≡ true → has_passed results d ≡ true)

available_of_iff :
    (contracts : Dict Contract) (results : Dict ContractEntry) (i : String)
    → nodup (keys results) ≡ true
    → (available_of (passed_ids results) i (lookup i contracts) ≡ true)
      ↔ IsAvailable contracts results i
unfolding available_of
available_of_iff contracts results i distinct = elim (Option-cases (lookup i contracts)) [
  | inl e ↦ (λ h. absurd (cc (rw e at h)), λ (c, e', fresh, ready). absurd (cc (sym e ∙ e')))
  | inr (c, e) ↦
      let passed = passed_ids results in
      let told = λ (d : String). elem-passed_ids d results distinct in
      rw e (
        λ h. (
          c,
          refl,
          ground (arith, told i),
          λ d m. sym (told d) ∙ all_passed_elem passed c.prerequisites (ground arith) d m,
        ),
        λ (c', same, fresh, ready). ground (
          arith,
          told i,
          all_passed_of_elem passed c.prerequisites (λ d m. told d ∙ ready d (cc)),
        ),
      )
]

-- For dictionaries with distinct keys, the frontier holds exactly the ids of the corpus that have
-- not passed and whose prerequisites have all passed.
pub frontier_correct :
    (contracts : Dict Contract) (results : Dict ContractEntry)
    → nodup (keys contracts) ≡ true
    → nodup (keys results) ≡ true
    → (identifier : String)
    → (elem identifier (frontier contracts results) ≡ true) ↔ (
        (contract : Contract) × (lookup identifier contracts ≡ some contract)
        × (has_passed results identifier ≡ false)
        × ((d : String) → elem d contract.prerequisites ≡ true → has_passed results d ≡ true))
unfolding frontier
frontier_correct contracts results distinct distinct' i =
    let passed = passed_ids results in
    let same : elem i (sorted (available_ids passed contracts))
        ≡ available_of passed i (lookup i contracts) =
      elem-sorted i (available_ids passed contracts)
      ∙ elem-available_ids passed i contracts distinct in
    let (there, back) = available_of_iff contracts results i distinct' in
    (λ h. there (sym same ∙ h), λ h. same ∙ back h)
