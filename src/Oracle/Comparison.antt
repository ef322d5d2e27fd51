-- ===== src/Oracle/Comparison.antt =====
-- `compare` of src/osbench/comparators.py and `_compare_observations` of src/osbench/oracle.py.
pub mod Closed
pub mod Collections
use os_bench.Common.{
  String, Bool, true, false, not, ◌&&◌, ◌||◌, List, [], ◌∷◌, ◌++◌, ◌==◌, Option, none, some, elem,
  count, all, nat_eq, if◌then◌else◌,
}

-- `set(xs) == set(ys)`
abbrev pub same_set : List String → List String → Bool
same_set xs ys = all (λ x. elem x ys) xs && all (λ y. elem y xs) ys

-- `Counter(xs) == Counter(ys)`
abbrev pub same_counts : List String → List String → Bool
same_counts xs ys = all (λ x. nat_eq (count x xs) (count x ys)) (xs ++ ys)

-- The values that are compared, with what Python's builtins give on them: `same` is `==`, `texts`
-- is `map(str, value)`, and `within` is `abs(float(a) - float(b)) <= tolerance`, false where that
-- raises. `normalize` is `normalize_observation` for the Contract at hand.
pub record Values {ℓ} (Value Observation : Type ℓ) : Type ℓ where
  pub same : Value → Value → Bool
  pub texts : Value → List String
  pub within : Value → Value → Bool
  pub normalize : Observation → Value
  pub status : Observation → Option String
  pub stderr : Observation → String

pub data Difference {ℓ} (Value : Type ℓ) : Type ℓ where
  invalid_reference_observation : Option String → String → Difference Value
  invalid_candidate_observation : Option String → String → Difference Value
  observation_mismatch : Value → Value → String → Difference Value

abbrev pub is_equality : String → Bool
is_equality kind =
    kind == "exact" || (kind == "semantic" || (kind == "relation" || kind == "partial_order"))

-- `equivalence.get("type", "exact")`
abbrev pub kind_of : Option String → String
kind_of none = "exact"
kind_of (some kind) = kind

-- `status == "ok"`
abbrev pub is_ok : Option String → Bool
is_ok none = false
is_ok (some status) = status == "ok"

module _ {ℓ} {Value Observation : Type ℓ} (values : Values Value Observation) where
  unfoldable pub agrees : String → Value → Value → Bool
  agrees kind reference candidate =
      if is_equality kind
      then values.same reference candidate
      else if kind == "set"
      then same_set (values.texts reference) (values.texts candidate)
      else if kind == "multiset"
      then same_counts (values.texts reference) (values.texts candidate)
      else if kind == "range"
      then values.within reference candidate
      else values.same reference candidate

  unfoldable pub compare : Value → Value → Option String → Bool × Option (Difference Value)
  unfolding agrees
  compare reference candidate equivalence =
      let kind = kind_of equivalence in
      let ok = agrees kind reference candidate in
      (ok, if ok then none else some (observation_mismatch reference candidate kind))

  unfoldable pub compare_observations :
      Observation → Observation → Option String → Bool × Option (Difference Value)
  unfolding compare
  compare_observations reference candidate equivalence =
      if not (is_ok (values.status reference))
      then (
        false,
        some (invalid_reference_observation (values.status reference) (values.stderr reference)),
      )
      else if not (is_ok (values.status candidate))
      then (
        false,
        some (invalid_candidate_observation (values.status candidate) (values.stderr candidate)),
      )
      else compare (values.normalize reference) (values.normalize candidate) equivalence
