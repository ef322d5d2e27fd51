-- ===== src/Scoring/Gate.antt =====
-- The boot gate opens exactly for a candidate that passes all of the boot Contracts.
use os_bench.Common.{
  all-elem, all_of_elem, ℕ, String, ◌≡◌, refl, ap, ◌∙◌, sym, ◌↔◌, Bool, true, false, ◌&&◌, List, [],
  ◌∷◌, arith, ◌==◌, eq_refl, if◌then◌else◌, elem, nodup, any, all, Dict, keys, lookup, none, some,
  Bool-cases, inl, inr,
}
use os_bench.Common.Result.{ok, err, key_error}
use os_bench.Common.Groups.{group_by, group_into, lookup-group_by, elem-keys-group_by}
use os_bench.Contracts.Model.{Contract}
use os_bench.Oracle.Aggregate.{CaseResult, Rate}
use os_bench.Oracle.Aggregate.Correct.{results_of}
use os_bench.Scoring.{
  Scores, contract_scores, ids_of_level, full_score, has_full_score, is_scored, is_nonempty, gate,
  document, score_results,
}
use os_bench.Scoring.Collected.{
  all_known, collect-group_into, collect_unknown, score_option, lookup-contract_scores,
  elem-keys-contract_scores, is_full-all,
}
use os_bench.Scoring.Levels.{at_level, elem-ids_of_level, IsAtLevel, at_level-IsAtLevel}

and-parts : (a b : Bool) → (a && b) ≡ true → (a ≡ true) × (b ≡ true)
and-parts a b h = (ground arith, ground arith)

and-join : (a b : Bool) → a ≡ true → b ≡ true → (a && b) ≡ true
and-join a b h k = ground arith

nonempty-elem : (xs : List String) → is_nonempty xs ≡ true → (x : String) × (elem x xs ≡ true)
nonempty-elem [] h = absurd (cc h)
nonempty-elem (x ∷ xs) h = (x, ground (arith, eq_refl x))

elem-nonempty : (x : String) (xs : List String) → elem x xs ≡ true → is_nonempty xs ≡ true
elem-nonempty x [] h = h
elem-nonempty x (y ∷ ys) h = refl

-- a Contract of which cases ran, all of which passed
abbrev pub IsPassed : List CaseResult → String → Type 0
IsPassed results k =
    (any (λ (r : CaseResult). k == r.contract) results ≡ true)
    × (all (λ (r : CaseResult). r.passed) (results_of k results) ≡ true)

abbrev scores_of : List CaseResult → Dict Rate
scores_of results = contract_scores (group_by (λ (r : CaseResult). r.contract) results)

scored-IsPassed :
    (results : List CaseResult) (k : String)
    → ((is_scored (scores_of results) k && has_full_score (scores_of results) k) ≡ true)
      ↔ IsPassed results k
scored-IsPassed results k =
    let grouped = group_by (λ (r : CaseResult). r.contract) results in
    let named = any (λ (r : CaseResult). k == r.contract) results in
    let mine = results_of k results in
    let scored : is_scored (scores_of results) k ≡ named =
      elem-keys-contract_scores k grouped
      ∙ elem-keys-group_by (λ (r : CaseResult). r.contract) k results in
    let found : lookup k (scores_of results) ≡ score_option (if named then some mine else none) =
      lookup-contract_scores k grouped
      ∙ ap score_option (lookup-group_by (λ (r : CaseResult). r.contract) k results) in
    elim (Bool-cases named) [
      | inl e ↦
          let full : has_full_score (scores_of results) k
              ≡ all (λ (r : CaseResult). r.passed) mine =
            ap full_score (found ∙ ap (λ b. score_option (if b then some mine else none)) e)
            ∙ is_full-all mine in
          (λ h. (e, ground arith), λ (x, y). ground arith)
      | inr e ↦ (λ h. absurd (ground arith), λ (x, y). absurd (cc (e, x)))
    ]

gate-IsPassed :
    (results : List CaseResult) (contracts : Dict Contract) (level : String)
    → nodup (keys contracts) ≡ true
    → (gate (ids_of_level level contracts) (scores_of results) ≡ true) ↔ (
        ((k : String) × IsAtLevel level contracts k)
        × ((k : String) → IsAtLevel level contracts k → IsPassed results k))
unfolding gate
gate-IsPassed results contracts level distinct =
    let ids = ids_of_level level contracts in
    let scores = scores_of results in
    let same : (k : String) → elem k ids ≡ at_level level (lookup k contracts) =
      λ k. elem-ids_of_level level k contracts distinct in
    let at = λ (k : String). at_level-IsAtLevel level k contracts in
    let test = λ (item : String). is_scored scores item && has_full_score scores item in
    (
      λ h.
          let (some_id, each) = and-parts (is_nonempty ids) (all test ids) h in
          let (k, m) = nonempty-elem ids some_id in
          (
            (k, (at k).0 (sym (same k) ∙ m)),
            λ k b. (scored-IsPassed results k).0 (all-elem test ids k each (same k ∙ (at k).1 b)),
          ),
      λ ((k, b), passed).
          and-join (is_nonempty ids) (all test ids) (elem-nonempty k ids (same k ∙ (at k).1 b)) (
            all_of_elem test ids
              (λ x m. (scored-IsPassed results x).1 (passed x ((at x).0 (sym (same x) ∙ m))))),
    )

pub score_results_known :
    (below : ℕ → ℕ → Bool) (results : List CaseResult) (contracts : Dict Contract)
    → all_known contracts results ≡ true
    → (s : Scores) × (score_results below results contracts ≡ ok s)
unfolding score_results
score_results_known below results contracts known = (
  document below results contracts (group_into (λ (r : CaseResult). r.contract) results []),
  rw (collect-group_into contracts results [] known) refl,
)

-- Scoring returns if every result names a Contract of the corpus, with a boot gate that is open
-- exactly if the corpus has boot Contracts, and of each of them cases ran and all of them passed.
pub score_results-boot_gate :
    (below : ℕ → ℕ → Bool) (results : List CaseResult) (contracts : Dict Contract)
    → nodup (keys contracts) ≡ true
    → all_known contracts results ≡ true
    → (s : Scores) × (score_results below results contracts ≡ ok s)
      × ((s.boot_gate ≡ true) ↔ (
          ((k : String) × IsAtLevel "boot" contracts k)
          × ((k : String) → IsAtLevel "boot" contracts k → IsPassed results k)))
unfolding score_results document group_by
score_results-boot_gate below results contracts distinct known = (
  document below results contracts (group_by (λ (r : CaseResult). r.contract) results),
  rw (collect-group_into contracts results [] known) refl,
  gate-IsPassed results contracts "boot" distinct,
)

-- A result of a Contract that the corpus does not have makes scoring raise a key error.
pub score_results_unknown :
    (below : ℕ → ℕ → Bool) (results : List CaseResult) (contracts : Dict Contract)
    → all_known contracts results ≡ false
    → (message : String) × (score_results below results contracts ≡ err (key_error message))
unfolding score_results
score_results_unknown below results contracts unknown =
    let (message, raised) = collect_unknown contracts results [] unknown in
    (message, rw raised refl)
