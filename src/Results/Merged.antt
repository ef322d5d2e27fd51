-- ===== src/Results/Merged.antt =====
-- Merging the shards of a run.
use os_bench.Common.{
  ℕ, String, ◌≡◌, refl, ap, ◌∙◌, sym, ◌↔◌, Bool, true, false, not, List, [], ◌∷◌, arith, elem,
  nodup, Dict, all,
}
use os_bench.Common.Result.{ok, Error, raise_if, >>=-eq-ok}
use os_bench.Contracts.Model.{Contract}
use os_bench.Scoring.{score_results}
use os_bench.Results.{
  ResultsDocument, MergedDocument, required, case_ids, merged_cases, merged_document, merge_results,
  same_version, validate_results,
}
use os_bench.Results.Valid.{IsValid, validate_results-IsValid}

-- what a merge that returns has checked and put together
pub merged_parts :
    (below : ℕ → ℕ → Bool) (contracts : Dict Contract) (first : ResultsDocument)
    (rest : List ResultsDocument) (m : MergedDocument)
    → merge_results below contracts (first ∷ rest) ≡ ok m
    → (all (λ (d : ResultsDocument). same_version first.benchmark_version d.benchmark_version) rest
        ≡ true)
      × (m.document ≡ merged_document first (first ∷ rest))
unfolding merge_results
merged_parts below contracts first rest m h =
    let agree =
      all (λ (d : ResultsDocument). same_version first.benchmark_version d.benchmark_version)
        rest in
    let cases = merged_cases (first ∷ rest) in
    let (u, checked, h') = >>=-eq-ok (raise_if (not agree) _) _ h in
    let (scores, scored, h'') = >>=-eq-ok (score_results below cases contracts) _ h' in
    (agreed agree _ u checked, cc h'')
  where
    agreed : (b : Bool) (e : Error) (u : Unit {0}) → raise_if (not b) e ≡ ok u → b ≡ true
    agreed true e u k = refl
    agreed false e u k = absurd (cc k)

merged-IsValid :
    (first : ResultsDocument) (documents : List ResultsDocument)
    → IsValid first
    → nodup (case_ids (merged_cases documents)) ≡ true
    → IsValid (merged_document first documents)
unfolding merged_document
merged-IsValid first documents v d = record {
  complete = still_complete first.fields v.complete;
  schema = v.schema;
  accounted = λ n e. sym (cc e);
  distinct = d;
}
  where
    still_complete :
        (fields : List String)
        → all (λ key. elem key fields) required ≡ true
        → all
            (λ key. elem key (
              "cases" ∷ "unsupported" ∷ "merged_from" ∷ "run_id" ∷ "selection" ∷ "scores"
              ∷ "contracts" ∷ fields))
            required
          ≡ true
    still_complete fields h = ground arith

merged-distinct :
    (first : ResultsDocument) (documents : List ResultsDocument)
    → IsValid (merged_document first documents)
    → nodup (case_ids (merged_cases documents)) ≡ true
unfolding merged_document
merged-distinct first documents v = v.distinct

-- When documents merge, the first one valid, the merged document validates exactly if no case was
-- evaluated in two of them, or twice: its counts are made to agree and its members to be there.
pub merge_results-valid :
    (below : ℕ → ℕ → Bool) (contracts : Dict Contract) (first : ResultsDocument)
    (rest : List ResultsDocument) (m : MergedDocument)
    → merge_results below contracts (first ∷ rest) ≡ ok m
    → validate_results first ≡ []
    → (validate_results m.document ≡ []) ↔ (nodup (case_ids (merged_cases (first ∷ rest))) ≡ true)
merge_results-valid below contracts first rest m h valid =
    let documents = first ∷ rest in
    let (agree, same) = merged_parts below contracts first rest m h in
    let merged = validate_results-IsValid (merged_document first documents) in
    let issues : validate_results m.document ≡ validate_results (merged_document first documents) =
      ap validate_results same in
    (
      λ e. merged-distinct first documents (merged.0 (sym issues ∙ e)),
      λ d.
          issues
          ∙ merged.1 (merged-IsValid first documents ((validate_results-IsValid first).0 valid) d),
    )
