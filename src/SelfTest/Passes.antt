-- ===== src/SelfTest/Passes.antt =====
-- When the self-test (src/osbench/full_selftest.py) passes.
use os_bench.Common.{
  ℕ, String, ◌≡◌, refl, ap, sym, ◌∙◌, Bool, true, false, not, ◌&&◌, List, [], ◌∷◌, map, all, Dict,
  Option, none, some, count_if-append, nat_eq, nat_eq_iff, and-true, arith, Bool-cases, inl, inr,
}
use os_bench.Common.Sort.{sort_by, all-sort_by}
use os_bench.Common.Result.{ok, >>=-eq-ok, ok-injective}
use os_bench.Contracts.Model.{Contract}
use os_bench.Oracle.Aggregate.{CaseResult}
use os_bench.Results.{
  ResultsDocument, MergedDocument, merged_cases, merged_document, merge_results, validate_results,
}
use os_bench.Results.Merged.{merged_parts}
use os_bench.SelfTest.{
  ShardEnd, wrote, failed, ShardError, SelfTestReport, document_issue, errors_or, shard_results,
  shard_errors, path_leb, documents_of, is_empty, count_failed, merged_report, run_selftest,
  report_on,
}

-- the shard wrote a document, in which every case passed
abbrev pub has_passed : ResultsDocument → Bool
has_passed d = all (λ (c : CaseResult). c.passed) d.cases

abbrev pub shard_passed : ℕ × ShardEnd → Bool
shard_passed (index, wrote path document) = has_passed document
shard_passed (index, failed e) = false

no_errors :
    (ends : List (ℕ × ShardEnd)) (pending : Option (List ℕ))
    → is_empty (shard_errors ends pending) ≡ true
    → pending ≡ none
no_errors [] none h = refl
no_errors [] (some ids) h = absurd (cc h)
no_errors ((index, wrote path document) ∷ ends) pending h = no_errors ends pending h
no_errors ((index, failed e) ∷ ends) pending h = absurd (cc h)

all_wrote :
    (ends : List (ℕ × ShardEnd)) (pending : Option (List ℕ))
    → is_empty (shard_errors ends pending) ≡ true
    → all has_passed (documents_of (shard_results ends)) ≡ true
    → all shard_passed ends ≡ true
all_wrote [] pending h j = refl
all_wrote ((index, wrote path document) ∷ ends) pending h j =
    let (first, others) =
      and-true (has_passed document) (all has_passed (documents_of (shard_results ends))) j in
    rw (first) (all_wrote ends pending h others)
all_wrote ((index, failed e) ∷ ends) pending h j = absurd (cc h)

none_failed : (cs : List CaseResult) → count_failed cs ≡ 0 → all (λ c. c.passed) cs ≡ true
none_failed [] h = refl
none_failed (c ∷ cs) h = elim (Bool-cases c.passed) [
  | inl good ↦ rw (good) (none_failed cs (ground (arith, h, good)))
  | inr bad ↦ absurd (ground (arith, h, bad))
]

all_documents :
    (ds : List ResultsDocument) → count_failed (merged_cases ds) ≡ 0 → all has_passed ds ≡ true
unfolding merged_cases
all_documents [] h = refl
all_documents (d ∷ ds) h =
    let parts = count_if-append (λ (c : CaseResult). not c.passed) d.cases (merged_cases ds) in
    rw (none_failed d.cases (ground (arith, h, parts)))
      (all_documents ds (ground (arith, h, parts)))

all-documents_of :
    (shards : List (String × ResultsDocument))
    → all has_passed (documents_of shards)
      ≡ all (λ (s : String × ResultsDocument). has_passed s.1) shards
all-documents_of [] = refl
all-documents_of ((path, document) ∷ shards) =
    ap (λ b. has_passed document && b) (all-documents_of shards)

cases_merged :
    (below : ℕ → ℕ → Bool) (contracts : Dict Contract) (ds : List ResultsDocument)
    (m : MergedDocument)
    → merge_results below contracts ds ≡ ok m
    → m.document.cases ≡ merged_cases ds
unfolding merge_results merged_document
cases_merged below contracts [] m h = absurd (cc h)
cases_merged below contracts (first ∷ rest) m h =
    ap (λ (d : ResultsDocument). d.cases) (merged_parts below contracts first rest m h).1

empty-nil : {A : Type 0} (xs : List A) → is_empty xs ≡ true → xs ≡ []
empty-nil [] h = refl
empty-nil (x ∷ xs) h = absurd (cc h)

-- the report, when something was written
report_on-passed :
    (below : ℕ → ℕ → Bool) (contracts : Dict Contract) (errors : List ShardError)
    (shards : List (String × ResultsDocument)) (r : SelfTestReport)
    → report_on below contracts errors shards ≡ ok r
    → r.passed ≡ true
    → (is_empty errors ≡ true)
      × (is_empty shards ≡ false)
      × (all has_passed (documents_of shards) ≡ true)
      × (r.issues ≡ [])
      × (r.shard_errors ≡ errors)
report_on-passed below contracts errors [] r h passed =
    let is : record { issues = errors_or errors; shard_errors = []; passed = false } ≡ r =
      ok-injective h in
    let refused : false ≡ r.passed = ap (λ (x : SelfTestReport). x.passed) is in
    absurd (cc (refused, passed))
report_on-passed below contracts errors (shard ∷ shards) r h passed =
    let files = shard ∷ shards in
    let sorted_files = sort_by path_leb files in
    let (m, merged, built) =
      >>=-eq-ok (merge_results below contracts (documents_of sorted_files)) _ h in
    let is : merged_report errors m ≡ r = ok-injective built in
    let good = ap (λ (x : SelfTestReport). x.passed) is ∙ passed in
    let (valid, rest) =
      and-true (is_empty (validate_results m.document))
        (is_empty errors && nat_eq (count_failed m.document.cases) 0) good in
    let (clean, none_bad) =
      and-true (is_empty errors) (nat_eq (count_failed m.document.cases) 0) rest in
    let zero_failed = (nat_eq_iff (count_failed m.document.cases) 0).0 none_bad in
    let documents = all_documents (documents_of sorted_files) (
      ap count_failed (sym (cases_merged below contracts (documents_of sorted_files) m merged))
      ∙ zero_failed) in
    (
      clean,
      refl,
      all-documents_of files
          ∙ sym (all-sort_by path_leb (λ (s : String × ResultsDocument). has_passed s.1) files)
          ∙ sym (all-documents_of sorted_files)
          ∙ documents,
      ap (λ (x : SelfTestReport). x.issues) (sym is)
          ∙ ap (map document_issue) (empty-nil (validate_results m.document) valid),
      ap (λ (x : SelfTestReport). x.shard_errors) (sym is),
    )

some_ends :
    (ends : List (ℕ × ShardEnd)) → is_empty (shard_results ends) ≡ false → is_empty ends ≡ false
some_ends [] h = h
some_ends (e ∷ ends) h = refl

-- A self-test passes only if no shard was pending when the time was over, some shard completed,
-- each that did wrote a document in which every case passed, and the merged document validates.
pub run_selftest-passed :
    (below : ℕ → ℕ → Bool) (contracts : Dict Contract) (ends : List (ℕ × ShardEnd))
    (pending : Option (List ℕ)) (r : SelfTestReport)
    → run_selftest below contracts ends pending ≡ ok r
    → r.passed ≡ true
    → (pending ≡ none)
      × (is_empty ends ≡ false)
      × (all shard_passed ends ≡ true)
      × (r.issues ≡ [])
      × (r.shard_errors ≡ [])
unfolding run_selftest
run_selftest-passed below contracts ends pending r h passed =
    let (clean, something, documents, valid, same) =
      report_on-passed below contracts (shard_errors ends pending) (shard_results ends) r h
        passed in
    (
      no_errors ends pending clean,
      some_ends ends something,
      all_wrote ends pending clean documents,
      valid,
      same ∙ empty-nil (shard_errors ends pending) clean,
    )
