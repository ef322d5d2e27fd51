-- ===== src/Results/Valid.antt =====
-- What a document without issues keeps.
use os_bench.Common.{
  ℕ, ◌+◌, String, ◌≡◌, refl, ap, ◌∙◌, sym, ◌↔◌, Bool, true, false, not, List, [], ◌∷◌, ◌++◌, arith,
  eq_iff, elem, nodup, length, nat_eq_iff, Option, none, some, all,
}
use os_bench.Results.{
  ResultsDocument, required, missing_issues, append_if, is_schema, is_mismatch, case_ids,
  validate_results,
}

-- A document that can be relied on: it has the required members, the known schema, distinct
-- cases, and as many cases as were requested, evaluated or not.
pub record IsValid (result : ResultsDocument) : Type 0 where
  pub complete : all (λ key. elem key result.fields) required ≡ true
  pub schema : result.schema_version ≡ some "osbench.results.v1"
  pub accounted :
      (n : ℕ) → result.requested ≡ some n → n ≡ length result.cases + length result.unsupported
  pub distinct : nodup (case_ids result.cases) ≡ true

missing_issues-nil :
    (fields keys : List String)
    → (missing_issues fields keys ≡ []) ↔ (all (λ key. elem key fields) keys ≡ true)
unfolding missing_issues
missing_issues-nil fields [] = (λ h. refl, λ h. refl)
missing_issues-nil fields (k ∷ ks) = ground (arith, missing_issues-nil fields ks)

append_if-nil : (bad : Bool) (message : String) → (append_if bad message ≡ []) ↔ (bad ≡ false)
append_if-nil true m = (λ h. absurd (cc h), λ h. absurd (cc h))
append_if-nil false m = (λ h. refl, λ h. refl)

split-nil : (xs ys : List String) → (xs ++ ys ≡ []) ↔ ((xs ≡ []) × (ys ≡ []))
split-nil [] ys = (λ h. (refl, h), λ h. h.1)
split-nil (x ∷ xs) ys = (λ h. absurd (cc h), λ h. absurd (cc (h.0)))

is_schema_iff : (v : Option String) → (not (is_schema v) ≡ false) ↔ (v ≡ some "osbench.results.v1")
is_schema_iff none = (λ h. absurd (cc h), λ h. absurd (cc h))
is_schema_iff (some v) = (
  λ h. ap some ((eq_iff v "osbench.results.v1").0 (ground arith)),
  λ h. ap (λ o. not (is_schema o)) h,
)

is_mismatch_iff :
    (requested : Option ℕ) (counted : ℕ)
    → (is_mismatch requested counted ≡ false) ↔ ((n : ℕ) → requested ≡ some n → n ≡ counted)
is_mismatch_iff none counted = (λ h n e. absurd (cc e), λ h. refl)
is_mismatch_iff (some r) counted = (
  λ h n e. let same : r ≡ n = cc e in sym same ∙ (nat_eq_iff r counted).0 (ground arith),
  λ h. ap not ((nat_eq_iff r counted).1 (h r refl)),
)

not-false : (b : Bool) → not b ≡ false → b ≡ true
not-false b h = ground arith

-- `validate_results` finds no issue exactly in the documents that have the required members and
-- the known schema, whose requested cases are the evaluated and the unsupported ones together,
-- and whose case ids are distinct.
pub validate_results-IsValid :
    (result : ResultsDocument) → (validate_results result ≡ []) ↔ IsValid result
unfolding validate_results
validate_results-IsValid result =
    let counted = length result.cases + length result.unsupported in
    let missing = missing_issues-nil result.fields required in
    let schema =
      append_if-nil (not (is_schema result.schema_version)) "unsupported schema_version" in
    let known = is_schema_iff result.schema_version in
    let mismatch =
      append_if-nil (is_mismatch result.requested counted) "case accounting mismatch" in
    let accounts = is_mismatch_iff result.requested counted in
    let repeated =
      append_if-nil (not (nodup (case_ids result.cases))) "duplicate evaluated case_id" in
    let first = split-nil (missing_issues result.fields required) _ in
    let second =
      split-nil (append_if (not (is_schema result.schema_version)) "unsupported schema_version")
        _ in
    let third =
      split-nil (append_if (is_mismatch result.requested counted) "case accounting mismatch") _ in
    (
      λ h.
          let a = first.0 h in
          let b = second.0 a.1 in
          let c = third.0 b.1 in
          record {
            complete = missing.0 a.0;
            schema = known.0 (schema.0 b.0);
            accounted = accounts.0 (mismatch.0 c.0);
            distinct = not-false (nodup (case_ids result.cases)) (repeated.0 c.1);
          },
      λ v. first.1 (
          (
            missing.1 v.complete,
            second.1 (
                (
                  schema.1 (known.1 v.schema),
                  third.1 ((mismatch.1 (accounts.1 v.accounted), repeated.1 (ap not v.distinct))),
                )),
          )),
    )
