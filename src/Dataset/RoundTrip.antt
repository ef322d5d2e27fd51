-- ===== src/Dataset/RoundTrip.antt =====
-- `validate_dataset` of what `build_dataset` (src/osbench/dataset.py) wrote.
use os_bench.Common.{
  ℕ, suc, ◌*◌, ◌<◌, String, ◌≡◌, refl, sym, ap, ◌∙◌, ◌↔◌, Bool, true, List, [], ◌∷◌, ◌++◌, all,
  elem, eq_refl, and-true, length, some, arith, count, lookup, get_or,
}
use os_bench.Common.Sort.{sort_by, all-sort_by, length-sort_by}
use os_bench.Common.Result.{ok}
use os_bench.Generators.{Template, GeneratedCase}
use os_bench.Dataset.{validate_dataset}
use os_bench.Dataset.Valid.{is_complete, distinct_ids, DescribesFile, validate_dataset_correct}
use os_bench.Dataset.Generate.{
  Library, contracts_or, id_leb, family_schedule, family_list, public_family_counts, generate_cases,
  indices_from,
}
use os_bench.Dataset.Schedule.{Shuffles, count-repeat_all}
use os_bench.Dataset.Generated.{jobs, jobs_of, IsMade, nothing, made, generate_cases-IsMade}
use os_bench.Dataset.Build.{
  Digests, CorpusReport, Built, rows_of, written_file, written_manifest, manifest_of, build_dataset,
}

abbrev pub template_ids : List Template → List String
template_ids [] = []
template_ids (t ∷ ts) = t.contract.id ∷ template_ids ts

-- each of the Contracts is known
abbrev known_templates : List String → List Template → Bool
known_templates known ts = all (λ t. elem t.contract.id known) ts

weaker :
    (known : List String) (j : String) (ts : List Template)
    → known_templates known ts ≡ true
    → known_templates (j ∷ known) ts ≡ true
weaker known j [] h = refl
weaker known j (t ∷ ts) h = ground (arith, weaker known j ts)

known_templates-ids : (ts : List Template) → known_templates (template_ids ts) ts ≡ true
known_templates-ids [] = refl
known_templates-ids (t ∷ ts) = ground (
  arith,
  eq_refl t.contract.id,
  weaker (template_ids ts) t.contract.id ts,
  known_templates-ids ts,
)

length-rows_of : (cs : List GeneratedCase) → length (rows_of cs) ≡ length cs
length-rows_of [] = refl
length-rows_of (c ∷ cs) = ap suc (length-rows_of cs)

-- the same of the jobs
abbrev known_jobs : List String → List (Template × ℕ) → Bool
known_jobs known js = all (λ (j : Template × ℕ). elem j.0.contract.id known) js

known_jobs-append :
    (known : List String) (js ks : List (Template × ℕ))
    → known_jobs known js ≡ true
    → known_jobs known ks ≡ true
    → known_jobs known (js ++ ks) ≡ true
known_jobs-append known [] ks h j = j
known_jobs-append known (x ∷ js) ks h j = ground (arith, known_jobs-append known js ks)

known_jobs-jobs_of :
    (known : List String) (t : Template) (indices : List ℕ)
    → elem t.contract.id known ≡ true
    → known_jobs known (jobs_of t indices) ≡ true
known_jobs-jobs_of known t [] h = refl
known_jobs-jobs_of known t (i ∷ is) h = rw (h) (known_jobs-jobs_of known t is h)

known_jobs-jobs :
    (known : List String) (n : ℕ) (ts : List Template)
    → known_templates known ts ≡ true
    → known_jobs known (jobs n ts) ≡ true
known_jobs-jobs known n [] h = refl
known_jobs-jobs known n (t ∷ ts) h =
    let (first, others) = and-true (elem t.contract.id known) (known_templates known ts) h in
    known_jobs-append known (jobs_of t (indices_from 0 n)) (jobs n ts)
      (known_jobs-jobs_of known t (indices_from 0 n) first) (known_jobs-jobs known n ts others)

-- the families of the cases
abbrev pub families_of : List GeneratedCase → List String
families_of [] = []
families_of (c ∷ cs) = c.fields.family ∷ families_of cs

module _ (library : Library) (profile : String) (seed : ℕ) where
  IsMade-families_of :
      (js : List (Template × ℕ)) (fs : List String) (cs : List GeneratedCase)
      → IsMade library profile seed js fs cs
      → families_of cs ≡ fs
  IsMade-families_of _ _ _ nothing = refl
  IsMade-families_of _ _ _ (made t index family c js fs cs is others) =
      rw (is.family, IsMade-families_of js fs cs others) refl

  all-is_complete :
      (known : List String) (js : List (Template × ℕ)) (fs : List String) (cs : List GeneratedCase)
      → IsMade library profile seed js fs cs
      → known_jobs known js ≡ true
      → all (is_complete known) (rows_of cs) ≡ true
  all-is_complete known _ _ _ nothing h = refl
  all-is_complete known _ _ _ (made t index family c js fs cs is others) h =
      let (first, rest) = and-true (elem t.contract.id known) (known_jobs known js) h in
      rw (is.contract, first) (all-is_complete known js fs cs others rest)

  module _ (draws : (s : ℕ) → library.rng.scale_index s < 8)
      (shuffles : Shuffles library.shuffle) where
    -- Of a valid corpus `build_dataset` writes a dataset that `validate_dataset` accepts exactly
    -- if its cases have distinct ids. The ids end in part of a digest, of which nothing is assumed.
    pub build_dataset-validate_dataset :
        (digests : Digests) (loaded : List Template) (report : CorpusReport) (n : ℕ)
        → report.valid ≡ true
        → let known = template_ids (contracts_or report.contracts loaded) in
          (built : Built) × (build_dataset library digests profile seed loaded report n ≡ ok built)
          × ((validate_dataset known
                  (some (written_manifest built))
                  (some (written_file digests built))
                ≡ [])
              ↔ (distinct_ids (rows_of built.cases) ≡ true))
    unfolding build_dataset
    build_dataset-validate_dataset digests loaded report n valid =
        let (cases, returns, made_so, counted) =
          generate_cases-IsMade library profile seed draws shuffles loaded report.contracts n in
        let ts = contracts_or report.contracts loaded in
        let built : Built = record {
          cases = cases;
          manifest = manifest_of library digests profile seed report.contracts n cases;
        } in
        let complete = all-is_complete (template_ids ts) _ _ cases made_so (
          known_jobs-jobs (template_ids ts) n (sort_by id_leb ts) (
            all-sort_by id_leb (λ t. elem t.contract.id (template_ids ts)) ts
            ∙ known_templates-ids ts)) in
        let described : DescribesFile (some (written_manifest built)) (written_file digests built) =
          λ m same.
            let is : written_manifest built ≡ m = cc same in
            rw (← is) (ap some (sym (length-rows_of cases)), refl) in
        let (sound, passes) =
          validate_dataset_correct (template_ids ts) (some (written_manifest built))
            (some (written_file digests built)) in
        (
          built,
          rw (valid, returns, build_dataset) refl,
          (
            λ h.
                let (file, found, all_complete, distinct, rest) = sound h in
                let is : file ≡ written_file digests built = cc found in rw (is) at distinct,
            λ distinct. passes (written_file digests built, refl, complete, distinct, described),
          ),
        )

    -- A public dataset of the whole corpus, of 2660 cases, has as many cases of each family as
    -- the table of public families says, and none of another.
    pub generate_cases-public :
        (loaded contracts : List Template) (n : ℕ)
        → profile ≡ "public"
        → length (contracts_or contracts loaded) * n ≡ 2660
        → (cases : List GeneratedCase) × (generate_cases library profile seed loaded contracts n
            ≡ ok cases)
          × ((f : String) → count f (families_of cases) ≡ get_or (lookup f public_family_counts) 0)
    unfolding family_schedule family_list
    generate_cases-public loaded contracts n is_public whole =
        let (cases, returns, made_so, counted) =
          generate_cases-IsMade library profile seed draws shuffles loaded contracts n in
        let items = sort_by id_leb (contracts_or contracts loaded) in
        let total : length items * n ≡ 2660 =
          ap (λ k. k * n) (length-sort_by id_leb (contracts_or contracts loaded)) ∙ whole in
        let same = IsMade-families_of _ _ cases made_so in
        (
          cases,
          returns,
          λ f.
              ap (count f) same
              ∙ shuffles.count _ _ f
              ∙ rw (total, is_public) (count-repeat_all f public_family_counts refl),
        )
