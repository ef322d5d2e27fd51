-- ===== src/Oracle/Selection/Each.antt =====
-- With `one_per_contract`, every Contract of the corpus is represented by one of its cases.
use os_bench.Common.{
  String, ◌≡◌, refl, ap, ◌∙◌, sym, Bool, true, false, List, [], ◌∷◌, arith, ◌==◌, eq_iff, eq_refl,
  if◌then◌else◌, elem, nodup, any, all, keep, keys, lookup, lookup-none_iff, none, some, Bool-cases,
  List-cases, inl, inr,
}
use os_bench.Common.Result.{ok}
use os_bench.Common.Groups.{group_by, lookup-group_by, elem-keys-group_by, nodup-keys-group_by}
use os_bench.Common.Items.{
  sorted_items, lookup-sorted_items, elem-keys-sorted_items, nodup-keys-sorted_items,
}
use os_bench.Oracle.Selection.{Case, key_ltb, min_from, min_case, representatives, one_case_each}

abbrev pub contracts_of : List Case → List String
contracts_of [] = []
contracts_of (c ∷ cs) = c.contract ∷ contracts_of cs

keep-nil : (t : Case → Bool) (cs : List Case) → keep t cs ≡ [] → any t cs ≡ false
keep-nil t [] h = refl
keep-nil t (c ∷ cs) h = elim (Bool-cases (t c)) [
  | inl e ↦ absurd (cc (rw e at h))
  | inr e ↦ ground (arith, keep-nil t cs (rw e at h))
]

all-keep : (t p : Case → Bool) (cs : List Case) → all p cs ≡ true → all p (keep t cs) ≡ true
all-keep t p [] h = refl
all-keep t p (c ∷ cs) h = ground (arith, all-keep t p cs)

all-keep_self : (t : Case → Bool) (cs : List Case) → all t (keep t cs) ≡ true
all-keep_self t [] = refl
all-keep_self t (c ∷ cs) = ground (arith, all-keep_self t cs)

-- the least case is one of them
all-min_from :
    (p : Case → Bool) (best : Case) (cs : List Case)
    → all p (best ∷ cs) ≡ true
    → p (min_from best cs) ≡ true
unfolding min_from
all-min_from p best [] h = ground arith
all-min_from p best (c ∷ cs) h = elim (Bool-cases (key_ltb c best)) [
  | inl e ↦ rw e (all-min_from p c cs (ground arith))
  | inr e ↦ rw e (all-min_from p best cs (ground arith))
]

module _ (cases : List Case) where
  abbrev of_contract : String → Case → Bool
  of_contract k c = k == c.contract

  -- every item is a Contract with its cases, of which there are some
  abbrev GoodItems : List (String × List Case) → Type 0
  GoodItems [] = Unit {0}
  GoodItems ((k, group) ∷ rest) =
      (group ≡ keep (of_contract k) cases) × (any (of_contract k) cases ≡ true) × GoodItems rest

  abbrev GoodLookups : List (String × List Case) → Type 0
  GoodLookups items =
      (k : String) (group : List Case)
      → lookup k items ≡ some group
      → (group ≡ keep (of_contract k) cases) × (any (of_contract k) cases ≡ true)

  good_of_lookup :
      (items : List (String × List Case))
      → nodup (keys items) ≡ true
      → GoodLookups items
      → GoodItems items
  good_of_lookup [] d h = tt
  good_of_lookup ((k, group) ∷ rest) d h =
      let (same, named) = h k group (ground (arith, eq_refl k)) in
      (same, named, good_of_lookup rest (ground arith) later)
    where
      later : GoodLookups rest
      later j g e = elim (Bool-cases (j == k)) [
        | inr other ↦ h j g (rw other e)
        | inl same ↦
            let fresh : elem j (keys rest) ≡ false =
              ap (λ x. elem x (keys rest)) ((eq_iff j k).0 same) ∙ ground arith in
            absurd (cc ((lookup-none_iff j rest).1 fresh, e))
      ]

  Chosen : List (String × List Case) → List Case → Type 0
  Chosen items chosen =
      (representatives items ≡ ok chosen)
      × (contracts_of chosen ≡ keys items)
      × ((p : Case → Bool) → all p cases ≡ true → all p chosen ≡ true)

  representatives-Chosen :
      (items : List (String × List Case))
      → GoodItems items
      → (chosen : List Case) × Chosen items chosen
  unfolding representatives min_case Chosen
  representatives-Chosen [] good = ([], (refl, refl, λ p h. refl))
  representatives-Chosen ((k, group) ∷ rest) (same, named, good) =
      let (chosen, (ran, names, within)) = representatives-Chosen rest good in
      elim (List-cases group) [
        | inl e ↦ absurd (cc (named, keep-nil (of_contract k) cases (sym same ∙ e)))
        | inr (c, cs, e) ↦
            let whole : c ∷ cs ≡ keep (of_contract k) cases = sym e ∙ same in
            let least = min_from c cs in
            let its_name : k ≡ least.contract = (eq_iff k least.contract).0 (
              all-min_from (of_contract k) c cs
                (ap (all (of_contract k)) whole ∙ all-keep_self (of_contract k) cases)) in
            (
              least ∷ chosen,
              (
                rw (e, ran) refl,
                ap (λ x. x ∷ contracts_of chosen) (sym its_name) ∙ ap (◌∷◌ k) names,
                λ p h.
                    let first =
                      all-min_from p c cs (ap (all p) whole ∙ all-keep (of_contract k) p cases h) in
                    let others = within p h in ground arith,
              ),
            )
      ]

-- `one_per_contract` always finds its cases: they are cases of the corpus, since what holds of
-- all of those holds of these, and each Contract that the corpus has cases of is represented once.
pub one_case_each_correct :
    (cases : List Case)
    → (chosen : List Case) × (one_case_each cases ≡ ok chosen)
      × ((p : Case → Bool) → all p cases ≡ true → all p chosen ≡ true)
      × (nodup (contracts_of chosen) ≡ true)
      × ((k : String) → elem k (contracts_of chosen) ≡ any (λ (c : Case). k == c.contract) cases)
unfolding one_case_each Chosen
one_case_each_correct cases =
    let grouped = group_by (λ (c : Case). c.contract) cases in
    let items = sorted_items grouped in
    let distinct = nodup-keys-group_by (λ (c : Case). c.contract) cases in
    let good = good_of_lookup cases items (nodup-keys-sorted_items grouped distinct) (λ k group e.
      of_group k group (
        sym (
          lookup-sorted_items k grouped distinct
          ∙ lookup-group_by (λ (c : Case). c.contract) k cases)
        ∙ e)) in
    let (chosen, (ran, names, within)) = representatives-Chosen cases items good in
    (
      chosen,
      ran,
      within,
      ap nodup names ∙ nodup-keys-sorted_items grouped distinct,
      λ k.
          ap (elem k) names
          ∙ elem-keys-sorted_items k grouped
          ∙ elem-keys-group_by (λ (c : Case). c.contract) k cases,
    )
  where
    of_group :
        (k : String) (group : List Case)
        → (if any (λ (c : Case). k == c.contract) cases
            then some (keep (λ (c : Case). k == c.contract) cases)
            else none)
          ≡ some group
        → (group ≡ keep (λ (c : Case). k == c.contract) cases)
          × (any (λ (c : Case). k == c.contract) cases ≡ true)
    of_group k group e = elim (Bool-cases (any (λ (c : Case). k == c.contract) cases)) [
      | inl named ↦ (cc (rw named at e), named)
      | inr unnamed ↦ absurd (cc (rw unnamed at e))
    ]
