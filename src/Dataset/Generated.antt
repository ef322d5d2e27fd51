-- ===== src/Dataset/Generated.antt =====
-- What `generate_cases` of src/osbench/dataset.py makes.
use mathlib.Core.Path.{subst}
use mathlib.Core.List.{append-nil, append_assoc}
use os_bench.Common.{
  ℕ, zero, suc, ◌+◌, ◌*◌, ◌<◌, String, ◌≡◌, refl, sym, ap, ◌∙◌, Bool, true, ◌&&◌, List, [], ◌∷◌,
  ◌++◌, all, and-true, length, length-append, take, drop, take-append-drop, length-take,
  length-drop, arith,
}
use os_bench.Common.Sort.{sort_by, length-sort_by}
use os_bench.Common.Result.{ok}
use os_bench.Generators.{Template, GeneratedCase, item_at}
use os_bench.Generators.Limits.{IsCaseOf, generic_case_returns}
use os_bench.Dataset.Generate.{
  Library, indices_from, contracts_or, id_leb, family_schedule, case_seed, cases_of, all_cases,
  generate_cases,
}
use os_bench.Dataset.Schedule.{
  Shuffles, is_family, is_family-difficulty_of, family_schedule-length, all-family_schedule,
}

-- the Contracts with the indices of their cases
abbrev pub jobs_of : Template → List ℕ → List (Template × ℕ)
jobs_of t [] = []
jobs_of t (index ∷ indices) = (t, index) ∷ jobs_of t indices

abbrev pub jobs : ℕ → List Template → List (Template × ℕ)
jobs n [] = []
jobs n (t ∷ items) = jobs_of t (indices_from 0 n) ++ jobs n items

item_at-append :
    {A : Type 0} (before : List A) (x : A) (rest : List A)
    → item_at (length before) (before ++ x ∷ rest) ≡ ok x
item_at-append [] x rest = refl
item_at-append (b ∷ before) x rest = item_at-append before x rest

length-snoc : {A : Type 0} (xs : List A) (x : A) → length (xs ++ x ∷ []) ≡ length xs + 1
length-snoc xs x = length-append xs (x ∷ [])

length-indices_from : (i n : ℕ) → length (indices_from i n) ≡ n
length-indices_from i zero = refl
length-indices_from i (suc n) = ap suc (length-indices_from (suc i) n)

all-append :
    (test : String → Bool) (xs ys : List String)
    → all test (xs ++ ys) ≡ (all test xs && all test ys)
all-append test [] ys = refl
all-append test (x ∷ xs) ys = ground (arith, all-append test xs ys)

times_suc : (k n : ℕ) → suc k * n ≡ n + k * n
times_suc k n = ground arith

-- the first part of the schedule and what is left for the other items
chunk_length :
    (n : ℕ) (rest : List String) (k : ℕ)
    → length rest ≡ suc k * n
    → length (take n rest) ≡ length (indices_from 0 n)
chunk_length n rest k h =
    length-take n rest ∙ ground (arith, times_suc k n, length-indices_from 0 n)

rest_length :
    (n : ℕ) (rest : List String) (k : ℕ) → length rest ≡ suc k * n → length (drop n rest) ≡ k * n
rest_length n rest k h = length-drop n rest ∙ ground (arith, times_suc k n)

module _ (library : Library) (profile : String) (seed : ℕ) where
  -- One case for each job, with the families in order.
  pub data IsMade : List (Template × ℕ) → List String → List GeneratedCase → Type 0 where
    nothing : IsMade [] [] []
    made :
        (t : Template) (index : ℕ) (family : String) (c : GeneratedCase) (js : List (Template × ℕ))
        (fs : List String) (cs : List GeneratedCase)
        → IsCaseOf library.rng library.digest t
            (case_seed library profile seed t index)
            family
            index
            c
        → IsMade js fs cs
        → IsMade ((t, index) ∷ js) (family ∷ fs) (c ∷ cs)

  IsMade-append :
      (js ks : List (Template × ℕ)) (fs gs : List String) (cs ds : List GeneratedCase)
      → IsMade js fs cs
      → IsMade ks gs ds
      → IsMade (js ++ ks) (fs ++ gs) (cs ++ ds)
  IsMade-append _ ks _ gs _ ds nothing rest = rest
  IsMade-append _ ks _ gs _ ds (made t index family c js fs cs is others) rest =
      made t index family c _ _ _ is (IsMade-append js ks fs gs cs ds others rest)

  pub IsMade-length :
      (js : List (Template × ℕ)) (fs : List String) (cs : List GeneratedCase)
      → IsMade js fs cs
      → length cs ≡ length fs
  IsMade-length _ _ _ nothing = refl
  IsMade-length _ _ _ (made t index family c js fs cs is others) =
      ap suc (IsMade-length js fs cs others)

  module _ (draws : (s : ℕ) → library.rng.scale_index s < 8) where
    cases_of-IsMade :
        (before chunk after : List String) (t : Template) (indices : List ℕ)
        → length chunk ≡ length indices
        → all is_family chunk ≡ true
        → (cases : List GeneratedCase) × (cases_of library profile seed
              (before ++ (chunk ++ after))
              t
              indices
              (length before)
            ≡ ok (cases, length (before ++ chunk)))
          × IsMade (jobs_of t indices) chunk cases
    unfolding cases_of
    cases_of-IsMade before [] after t [] same known =
        ([], ap (λ xs. ok ([], length xs)) (sym (append-nil before)), nothing)
    cases_of-IsMade before (f ∷ fs) after t [] same known = absurd (cc same)
    cases_of-IsMade before [] after t (i ∷ is) same known = absurd (cc same)
    cases_of-IsMade before (f ∷ fs) after t (i ∷ is) same known =
        let (good, others) = and-true (is_family f) (all is_family fs) known in
        let (d, difficult) = is_family-difficulty_of f good in
        let number = case_seed library profile seed t i in
        let (c, makes, about) =
          generic_case_returns library.rng library.digest t number f i profile d (draws number)
            difficult in
        let (cs, returns, rest) =
          cases_of-IsMade (before ++ f ∷ []) fs after t is (ground arith) others in
        let returns_here : cases_of library profile seed (before ++ (f ∷ (fs ++ after))) t is
              (length before + 1)
            ≡ ok (cs, length (before ++ (f ∷ fs))) =
          rw
            (
              append_assoc before (f ∷ []) (fs ++ after),
              append_assoc before (f ∷ []) fs,
              length-snoc before f,
            )
            at returns in
        (
          c ∷ cs,
          rw (item_at-append before f (fs ++ after), makes, returns_here, cases_of) refl,
          made t i f c (jobs_of t is) fs cs about rest,
        )

    all_cases-IsMade :
        (n : ℕ) (before rest : List String) (items : List Template)
        → length rest ≡ length items * n
        → all is_family rest ≡ true
        → (cases : List GeneratedCase) × (all_cases library profile seed
              (before ++ rest)
              n
              items
              (length before)
            ≡ ok cases)
          × IsMade (jobs n items) rest cases
    unfolding all_cases
    all_cases-IsMade n before [] [] same known = ([], refl, nothing)
    all_cases-IsMade n before (f ∷ fs) [] same known = absurd (ground (arith, same))
    all_cases-IsMade n before rest (t ∷ items) same known =
        let chunk = take n rest in
        let after = drop n rest in
        let parts = take-append-drop n rest in
        let (good, others) : (all is_family chunk ≡ true) × (all is_family after ≡ true) =
          and-true (all is_family chunk) (all is_family after)
            (sym (all-append is_family chunk after) ∙ ap (all is_family) parts ∙ known) in
        let (cs, first, mine) =
          cases_of-IsMade before chunk after t (indices_from 0 n)
            (chunk_length n rest (length items) same) good in
        let (ds, second, theirs) =
          all_cases-IsMade n (before ++ chunk) after items (rest_length n rest (length items) same)
            others in
        let first_here : cases_of library profile seed (before ++ rest) t (indices_from 0 n)
              (length before)
            ≡ ok (cs, length (before ++ chunk)) =
          rw (parts) at first in
        let second_here : all_cases library profile seed (before ++ rest) n items
              (length (before ++ chunk))
            ≡ ok ds =
          rw (append_assoc before chunk after, parts) at second in
        (
          cs ++ ds,
          rw (first_here, second_here, all_cases) refl,
          subst (λ families. IsMade (jobs n (t ∷ items)) families (cs ++ ds)) parts
              (IsMade-append (jobs_of t (indices_from 0 n)) (jobs n items) chunk after cs ds mine
                theirs),
        )

    -- `generate_cases` returns: for each Contract, in the order of the ids, the cases of the
    -- first indices, with the families of the schedule in order and limits in their bounds.
    pub generate_cases-IsMade :
        (shuffles : Shuffles library.shuffle) (loaded contracts : List Template) (n : ℕ)
        → let items = sort_by id_leb (contracts_or contracts loaded) in
          let schedule = family_schedule library profile seed (length items * n) in
          (cases : List GeneratedCase) × (generate_cases library profile seed loaded contracts n
            ≡ ok cases)
          × IsMade (jobs n items) schedule cases
          × (length cases ≡ length (contracts_or contracts loaded) * n)
    unfolding generate_cases
    generate_cases-IsMade shuffles loaded contracts n =
        let items = sort_by id_leb (contracts_or contracts loaded) in
        let schedule = family_schedule library profile seed (length items * n) in
        let long = family_schedule-length library shuffles profile seed (length items * n) in
        let (cases, returns, made_so) =
          all_cases-IsMade n [] schedule items long
            (all-family_schedule library shuffles profile seed (length items * n)) in
        (
          cases,
          returns,
          made_so,
          IsMade-length (jobs n items) schedule cases made_so
              ∙ long
              ∙ ap (λ k. k * n) (length-sort_by id_leb (contracts_or contracts loaded)),
        )
