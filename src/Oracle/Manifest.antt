-- ===== src/Oracle/Manifest.antt =====
-- `_verify_public_dataset` of src/osbench/oracle.py: the manifest must describe the dataset.
use os_bench.Common.{
  ℕ, String, ◌≡◌, refl, ap, ◌∙◌, ◌↔◌, Bool, true, false, not, List, [], ◌∷◌, ◌++◌, ◌==◌, eq_iff,
  nat_eq, nat_eq_iff, Option, none, some, if◌then◌else◌,
}
use os_bench.Common.Int.{ℤ, pos, negsuc}
use os_bench.Common.Result.{Result, ok, err, value_error}
use os_bench.Common.Text.{concat, join}

-- `case_count` is `int(manifest.get("case_count", -1))`; the texts are the values as messages
-- show them.
pub record Manifest : Type 0 where
  pub case_count : ℤ
  pub case_count_text : String
  pub cases_sha256 : Option String
  pub contract_corpus_sha256 : Option String

abbrev pub is_count : ℤ → ℕ → Bool
is_count (pos n) count = nat_eq n count
is_count (negsuc n) count = false

abbrev pub is_digest : Option String → String → Bool
is_digest none digest = false
is_digest (some expected) digest = expected == digest

abbrev pub shown : Option String → String
shown none = "None"
shown (some digest) = digest

-- `if bad: mismatches.append(f"{name} expected {expected} observed {observed}")`
abbrev pub mismatch_if : Bool → String → String → String → List String
mismatch_if bad name expected observed =
    if bad then concat (name ∷ " expected " ∷ expected ∷ " observed " ∷ observed ∷ []) ∷ [] else []

unfoldable pub mismatches : Manifest → ℕ → String → String → String → List String
mismatches manifest count count_text file_sha256 corpus_sha256 =
    mismatch_if (not (is_count manifest.case_count count)) "case_count" manifest.case_count_text
      count_text
    ++ (mismatch_if (not (is_digest manifest.cases_sha256 file_sha256)) "cases_sha256"
          (shown manifest.cases_sha256) file_sha256
        ++ mismatch_if (not (is_digest manifest.contract_corpus_sha256 corpus_sha256))
            "contract_corpus_sha256" (shown manifest.contract_corpus_sha256) corpus_sha256)

-- `if mismatches: raise …`
abbrev pub raise_mismatches : List String → Result (Unit {0})
raise_mismatches [] = ok tt
raise_mismatches (m ∷ ms) = err (
    value_error (
      concat (
        "Public dataset and manifest are out of sync: "
        ∷ join "; " (m ∷ ms)
        ∷ ". Rebuild with `osbench dataset build --profile public --seed 1 "
        ∷ "--cases-per-contract 10 --check-determinism`."
        ∷ [])))

-- `count_text` is `len(corpus)` in decimals; the manifest is there if its file exists.
unfoldable pub verify_public_dataset :
    Option Manifest → ℕ → String → String → String → Result (Unit {0})
unfolding mismatches
verify_public_dataset none count count_text file_sha256 corpus_sha256 = err (
    value_error "Public dataset manifest is missing; run `osbench dataset build --profile public`.")
verify_public_dataset (some manifest) count count_text file_sha256 corpus_sha256 =
    raise_mismatches (mismatches manifest count count_text file_sha256 corpus_sha256)

is_count_of : (z : ℤ) (n : ℕ) → is_count z n ≡ true → z ≡ pos n
is_count_of (pos m) n h = ap pos ((nat_eq_iff m n).0 h)
is_count_of (negsuc m) n h = absurd (cc h)

is_digest_of : (d : Option String) (s : String) → is_digest d s ≡ true → d ≡ some s
is_digest_of none s h = absurd (cc h)
is_digest_of (some e) s h = ap some ((eq_iff e s).0 h)

is_digest_same : (s : String) → is_digest (some s) s ≡ true
is_digest_same s = (eq_iff s s).1 refl

-- what is left when no test fails
tests_pass :
    (a b c : Bool) (x y : String) (z u v w : String)
    → mismatch_if (not a) "case_count" x y
        ++ (mismatch_if (not b) "cases_sha256" z u
            ++ mismatch_if (not c) "contract_corpus_sha256" v w)
      ≡ []
    → (a ≡ true) × (b ≡ true) × (c ≡ true)
tests_pass true true true x y z u v w h = (refl, refl, refl)
tests_pass true true false x y z u v w h = absurd (cc h)
tests_pass true false c x y z u v w h = absurd (cc h)
tests_pass false b c x y z u v w h = absurd (cc h)

raise_mismatches-ok : (ms : List String) → raise_mismatches ms ≡ ok tt → ms ≡ []
raise_mismatches-ok [] h = refl
raise_mismatches-ok (m ∷ ms) h = absurd (cc h)

-- The check passes exactly if there is a manifest, and it states the number of cases, the digest
-- of the dataset file and the digest of the Contract corpus that are found.
pub verify_public_dataset_correct :
    (manifest : Option Manifest) (count : ℕ) (count_text file_sha256 corpus_sha256 : String)
    → (verify_public_dataset manifest count count_text file_sha256 corpus_sha256 ≡ ok tt) ↔ (
        (m : Manifest) × (manifest ≡ some m)
        × (m.case_count ≡ pos count)
        × (m.cases_sha256 ≡ some file_sha256)
        × (m.contract_corpus_sha256 ≡ some corpus_sha256))
unfolding verify_public_dataset
verify_public_dataset_correct none count text file corpus =
    (λ h. absurd (cc h), λ (m, e, a, b, c). absurd (cc e))
verify_public_dataset_correct (some m) count text file corpus = (
  λ h.
      let (a, b, c) =
        tests_pass (is_count m.case_count count) (is_digest m.cases_sha256 file)
          (is_digest m.contract_corpus_sha256 corpus) m.case_count_text text (shown m.cases_sha256)
          file (shown m.contract_corpus_sha256) corpus (raise_mismatches-ok _ h) in
      (
        m,
        refl,
        is_count_of m.case_count count a,
        is_digest_of m.cases_sha256 file b,
        is_digest_of m.contract_corpus_sha256 corpus c,
      ),
  λ (m', e, a, b, c).
      let same : m ≡ m' = cc e in
      let count_same : is_count m.case_count count ≡ true =
        ap (λ (x : Manifest). is_count x.case_count count) same
        ∙ ap (λ z. is_count z count) a
        ∙ (nat_eq_iff count count).1 refl in
      let cases_same : is_digest m.cases_sha256 file ≡ true =
        ap (λ (x : Manifest). is_digest x.cases_sha256 file) same
        ∙ ap (λ d. is_digest d file) b
        ∙ is_digest_same file in
      let corpus_same : is_digest m.contract_corpus_sha256 corpus ≡ true =
        ap (λ (x : Manifest). is_digest x.contract_corpus_sha256 corpus) same
        ∙ ap (λ d. is_digest d corpus) c
        ∙ is_digest_same corpus in
      rw (count_same, cases_same, corpus_same) refl,
)
