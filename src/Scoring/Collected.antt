-- ===== src/Scoring/Collected.antt =====
-- The loop that collects the results by Contract, and the scores that they give.
use os_bench.Common.{
  String, ◌≡◌, refl, ap, Bool, true, false, ◌||◌, List, [], ◌∷◌, arith, ◌==◌, elem, all,
  count_if-le-length, Dict, keys, lookup, push, Option, none, some, Bool-cases, inl, inr,
}
use os_bench.Common.Result.{ok, err, key_error}
use os_bench.Common.Groups.{group_into}
use os_bench.Common.Text.{concat}
use os_bench.Contracts.Model.{Contract}
use os_bench.Oracle.Aggregate.{CaseResult, Rate}
use os_bench.Scoring.{collect, score, is_full, contract_scores}

abbrev pub all_known : Dict Contract → List CaseResult → Bool
all_known contracts results = all (λ (r : CaseResult). elem r.contract (keys contracts)) results

pub collect-group_into :
    (contracts : Dict Contract) (results : List CaseResult) (d : Dict (List CaseResult))
    → all_known contracts results ≡ true
    → collect contracts results d ≡ ok (group_into (λ (r : CaseResult). r.contract) results d)
unfolding collect group_into
collect-group_into contracts [] d h = refl
collect-group_into contracts (r ∷ rs) d h =
    let known : elem r.contract (keys contracts) ≡ true = ground arith in
    rw (known, collect) (collect-group_into contracts rs (push r.contract r d) (ground arith))

pub collect_unknown :
    (contracts : Dict Contract) (results : List CaseResult) (d : Dict (List CaseResult))
    → all_known contracts results ≡ false
    → (message : String) × (collect contracts results d ≡ err (key_error message))
unfolding collect
collect_unknown contracts [] d h = absurd (cc h)
collect_unknown contracts (r ∷ rs) d h = elim (Bool-cases (elem r.contract (keys contracts))) [
  | inr unknown ↦ (
    concat ("Result references unknown Contract: " ∷ r.contract ∷ []),
    rw (unknown, collect) refl,
  )
  | inl known ↦
      let (message, raised) = collect_unknown contracts rs (push r.contract r d) (ground arith) in
      (message, rw (known, collect) raised)
]

abbrev pub score_option : Option (List CaseResult) → Option Rate
score_option none = none
score_option (some results) = some (score results)

pub lookup-contract_scores :
    (k : String) (d : Dict (List CaseResult))
    → lookup k (contract_scores d) ≡ score_option (lookup k d)
unfolding contract_scores
lookup-contract_scores k [] = refl
lookup-contract_scores k ((j, results) ∷ rest) = elim (Bool-cases (k == j)) [
  | inl same ↦ rw same refl
  | inr other ↦ rw other (lookup-contract_scores k rest)
]

pub elem-keys-contract_scores :
    (k : String) (d : Dict (List CaseResult)) → elem k (keys (contract_scores d)) ≡ elem k (keys d)
unfolding contract_scores
elem-keys-contract_scores k [] = refl
elem-keys-contract_scores k ((j, results) ∷ rest) =
    ap (λ b. k == j || b) (elem-keys-contract_scores k rest)

-- A score is full exactly if all of the results have passed.
pub is_full-all :
    (results : List CaseResult)
    → is_full (score results) ≡ all (λ (r : CaseResult). r.passed) results
is_full-all [] = refl
is_full-all (r ∷ rs) =
    ground (arith, is_full-all rs, count_if-le-length (λ (s : CaseResult). s.passed) rs)
