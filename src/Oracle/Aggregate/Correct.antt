-- ===== src/Oracle/Aggregate/Correct.antt =====
-- A Contract passes exactly if every case of it that ran has passed.
use os_bench.Common.{
  ◌+◌, String, ◌≡◌, refl, ap, ◌∙◌, sym, ◌↔◌, Bool, true, false, not, ◌&&◌, List, [], ◌∷◌, arith,
  ◌==◌, if◌then◌else◌, elem, any, all, keep, count_if, count_if-le-length, length, nat_eq,
  nat_eq_iff, lookup, Option, none, some, Bool-cases, inl, inr,
}
use os_bench.Common.Groups.{group_by, lookup-group_by, nodup-keys-group_by}
use os_bench.Common.Items.{sorted_items, lookup-sorted_items}
use os_bench.Oracle.Aggregate.{
  CaseResult, Aggregate, aggregate, aggregate_all, aggregate_contract_results, failed_ids,
}

aggregate_option : Option (List CaseResult) → Option Aggregate
aggregate_option none = none
aggregate_option (some results) = some (aggregate results)

lookup-aggregate_all :
    (k : String) (d : List (String × List CaseResult))
    → lookup k (aggregate_all d) ≡ aggregate_option (lookup k d)
unfolding aggregate_all aggregate_option
lookup-aggregate_all k [] = refl
lookup-aggregate_all k ((j, results) ∷ rest) = elim (Bool-cases (k == j)) [
  | inl same ↦ rw same refl
  | inr other ↦ rw other (lookup-aggregate_all k rest)
]

abbrev pub results_of : String → List CaseResult → List CaseResult
results_of contract_id results = keep (λ (r : CaseResult). contract_id == r.contract) results

lookup-aggregate_contract_results :
    (k : String) (results : List CaseResult)
    → lookup k (aggregate_contract_results results) ≡ (
        if any (λ (r : CaseResult). k == r.contract) results
        then some (aggregate (results_of k results))
        else none)
unfolding aggregate_contract_results aggregate_option
lookup-aggregate_contract_results k results =
    let grouped = group_by (λ (r : CaseResult). r.contract) results in
    lookup-aggregate_all k (sorted_items grouped)
    ∙ ap aggregate_option (
        lookup-sorted_items k grouped (nodup-keys-group_by (λ (r : CaseResult). r.contract) results)
        ∙ lookup-group_by (λ (r : CaseResult). r.contract) k results)
    ∙ by_test (any (λ (r : CaseResult). k == r.contract) results)
  where
    by_test :
        (b : Bool)
        → aggregate_option (if b then some (results_of k results) else none)
          ≡ (if b then some (aggregate (results_of k results)) else none)
    by_test true = refl
    by_test false = refl

all-count_if :
    (rs : List CaseResult)
    → all (λ (r : CaseResult). r.passed) rs
      ≡ nat_eq (count_if (λ (r : CaseResult). r.passed) rs) (length rs)
all-count_if [] = refl
all-count_if (r ∷ rs) = ground (
  arith,
  all-count_if rs,
  count_if-le-length (λ (s : CaseResult). s.passed) rs,
  nat_eq_iff (count_if (λ (s : CaseResult). s.passed) rs) (length rs),
)

elem-failed_ids :
    (i : String) (rs : List CaseResult)
    → elem i (failed_ids rs) ≡ any (λ (r : CaseResult). i == r.case_id && not r.passed) rs
unfolding failed_ids
elem-failed_ids i [] = refl
elem-failed_ids i (r ∷ rs) = ground (arith, elem-failed_ids i rs)

any-results_of :
    (k : String) (p : CaseResult → Bool) (rs : List CaseResult)
    → any p (results_of k rs) ≡ any (λ (r : CaseResult). k == r.contract && p r) rs
any-results_of k p [] = refl
any-results_of k p (r ∷ rs) = ground (arith, any-results_of k p rs)

length-failed_ids :
    (rs : List CaseResult)
    → count_if (λ (r : CaseResult). r.passed) rs + length (failed_ids rs) ≡ length rs
unfolding failed_ids
length-failed_ids [] = refl
length-failed_ids (r ∷ rs) = ground (arith, length-failed_ids rs)

-- For the ids that some case names there is an aggregate, and no other. Its Contract has passed
-- exactly if all its cases have, it counts these cases, its pass rate is that of the passed among
-- them, and its failed cases are the ids of the others, as many as the rate leaves.
pub aggregate_contract_results_correct :
    (results : List CaseResult) (k : String)
    → ((lookup k (aggregate_contract_results results) ≡ none)
        ↔ (any (λ (r : CaseResult). k == r.contract) results ≡ false))
      × ((a : Aggregate)
          → lookup k (aggregate_contract_results results) ≡ some a
          → (a.passed ≡ all (λ (r : CaseResult). r.passed) (results_of k results))
            × (a.case_count ≡ length (results_of k results))
            × (a.pass_rate.denominator ≡ a.case_count)
            × (a.pass_rate.numerator + length a.failed_cases ≡ a.case_count)
            × ((i : String)
                → elem i a.failed_cases
                  ≡ any
                      (λ (r : CaseResult). k == r.contract && (i == r.case_id && not r.passed))
                      results))
unfolding aggregate
aggregate_contract_results_correct results k =
    let found = lookup-aggregate_contract_results k results in
    let mine = results_of k results in
    elim (Bool-cases (any (λ (r : CaseResult). k == r.contract) results)) [
      | inl named ↦
          let there : lookup k (aggregate_contract_results results) ≡ some (aggregate mine) =
            found ∙ ap (λ b. if b then some (aggregate mine) else none) named in
          (
            (λ h. absurd (cc (there, h)), λ h. absurd (cc (named, h))),
            λ a e.
                let same : a ≡ aggregate mine = cc (e, there) in
                rw same (
                  sym (all-count_if mine),
                  refl,
                  refl,
                  length-failed_ids mine,
                  λ i.
                      elem-failed_ids i mine
                      ∙ any-results_of k (λ (r : CaseResult). i == r.case_id && not r.passed)
                          results,
                ),
          )
      | inr unnamed ↦
          let missing : lookup k (aggregate_contract_results results) ≡ none =
            found ∙ ap (λ b. if b then some (aggregate mine) else none) unnamed in
          ((λ h. unnamed, λ h. missing), λ a e. absurd (cc (e, missing)))
    ]
