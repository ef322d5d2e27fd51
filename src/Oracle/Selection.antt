-- ===== src/Oracle/Selection.antt =====
-- `_case_shard` and `select_cases` of src/osbench/oracle.py.
pub mod Loop
pub mod Shards
pub mod Each
use os_bench.Common.{
  ℕ, zero, suc, ◌%◌, String, Bool, true, false, not, ◌&&◌, ◌||◌, List, [], ◌∷◌, ◌++◌, ◌==◌, Option,
  none, some, length, ltb, leb, nat_eq, if◌then◌else◌,
}
use os_bench.Common.Int.{ℤ, pos, negsuc}
use os_bench.Common.Result.{Result, ok, err, Error, value_error, ◌>>=◌, ◌>>◌, raise_if}
use os_bench.Common.Groups.{group_by}
use os_bench.Common.Items.{sorted_items}
use os_bench.Common.Text.{text_leb}

-- A case as far as the selection and the evaluation read it; `clean_snapshot` is true where the
-- case has none, and `probe` is that of its generator.
pub record Case : Type 0 where
  pub case_id : String
  pub contract : String
  pub case_family : String
  pub clean_snapshot : Bool
  pub domain : String
  pub level : String
  pub family : String
  pub probe : Option String

-- `key(case) < key(other)`: tuples compare from the left, and `False` comes before `True`
unfoldable pub key_ltb : Case → Case → Bool
key_ltb c d =
    if not (same_bool c.clean_snapshot d.clean_snapshot)
    then d.clean_snapshot
    else if not (c.case_family == d.case_family)
    then text_leb c.case_family d.case_family
    else not (text_leb d.case_id c.case_id)
  where
    same_bool : Bool → Bool → Bool
    same_bool true b = b
    same_bool false b = not b

-- `min(group, key=…)`: the first of the least
unfoldable pub min_from : Case → List Case → Case
min_from best [] = best
min_from best (c ∷ cs) = min_from (if key_ltb c best then c else best) cs

unfoldable pub min_case : List Case → Result Case
unfolding min_from
min_case [] = err (value_error "min() iterable argument is empty")
min_case (c ∷ cs) = ok (min_from c cs)

-- `for _, group in sorted(grouped.items())`
unfoldable pub representatives : List (String × List Case) → Result (List Case)
unfolding min_case
representatives [] = ok []
representatives ((_, group) ∷ rest) =
    min_case group >>= λ c. representatives rest >>= λ cs. ok (c ∷ cs)

unfoldable pub one_case_each : List Case → Result (List Case)
unfolding representatives
one_case_each cases = representatives (sorted_items (group_by (λ (c : Case). c.contract) cases))

abbrev pub below_one : ℤ → Bool
below_one (pos zero) = true
below_one (pos (suc n)) = false
below_one (negsuc n) = true

-- `shard_index < 0 or shard_index >= shard_count`, for a positive count
abbrev pub outside : ℤ → ℤ → Bool
outside (pos i) (pos n) = leb n i
outside (pos i) (negsuc n) = true
outside (negsuc i) n = true

-- `max_cases is not None and max_cases < 1`
abbrev pub no_room : Option ℤ → Bool
no_room none = false
no_room (some m) = below_one m

-- `max_cases is not None and len(selected) >= max_cases`
abbrev pub full : Option ℤ → ℕ → Bool
full none n = false
full (some (pos m)) n = leb m n
full (some (negsuc m)) n = true

abbrev pub natural : ℤ → ℕ
natural (pos n) = n
natural (negsuc n) = 0

-- `digest` is the number in the first eight bytes of the SHA-256 of the text.
module _ (digest : String → ℕ) where
  abbrev pub case_shard : String → ℕ → ℕ
  case_shard case_id shard_count = digest case_id % shard_count

  abbrev pub in_shard : ℕ → ℕ → Case → Bool
  in_shard shard_count shard_index case = nat_eq (case_shard case.case_id shard_count) shard_index

  -- the loop over `corpus`
  unfoldable pub select_loop : (Case → Bool) → Option ℤ → List Case → List Case → List Case
  select_loop wanted max_cases selected [] = selected
  select_loop wanted max_cases selected (c ∷ cs) = elim (wanted c) [
    | false ↦ select_loop wanted max_cases selected cs
    | true ↦ elim (full max_cases (length (selected ++ c ∷ []))) [
      | true ↦ selected ++ c ∷ []
      | false ↦ select_loop wanted max_cases (selected ++ c ∷ []) cs
    ]
  ]

  unfoldable pub select_cases : List Case → Bool → Option ℤ → ℤ → ℤ → Result (List Case)
  unfolding one_case_each select_loop
  select_cases cases one_per_contract max_cases shard_count shard_index =
      raise_if (below_one shard_count) (value_error "shard_count must be at least 1")
      >> raise_if (outside shard_index shard_count)
          (value_error "shard_index must satisfy 0 <= shard_index < shard_count")
      >> raise_if (no_room max_cases) (value_error "max_cases must be at least 1")
      >> ((if one_per_contract then one_case_each cases else ok cases) >>= λ corpus.
          ok (
            select_loop (in_shard (natural shard_count) (natural shard_index)) max_cases [] corpus))
