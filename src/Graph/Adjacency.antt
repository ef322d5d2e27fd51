-- ===== src/Graph/Adjacency.antt =====
-- `_adjacency` of src/osbench/graph.py: one edge for each prerequisite, in either direction.
use os_bench.Common.{
  String, ◌≡◌, refl, Bool, true, false, ◌&&◌, ◌||◌, List, [], ◌∷◌, arith, ◌==◌, if◌then◌else◌, elem,
  elem-append, Dict, push, lookup_list, lookup_list-push,
}
use os_bench.Common.Sort.{sorted, elem-sorted}
use os_bench.Contracts.Model.{Contract}

-- dict[str, list[str]], read by `adjacency.get(value, [])`
abbrev pub Adjacency : Type 0
Adjacency = Dict (List String)

abbrev pub neighbors : Adjacency → String → List String
neighbors adjacency value = lookup_list value adjacency

-- the inner loop: `adjacency[source].append(target)`
unfoldable pub add_dependencies : Bool → String → List String → Adjacency → Adjacency
add_dependencies reverse identifier [] adjacency = adjacency
add_dependencies reverse identifier (dependency ∷ rest) adjacency =
    add_dependencies reverse identifier rest (
      if reverse
      then push identifier dependency adjacency
      else push dependency identifier adjacency)

-- the outer loop, over `contracts.items()`
unfoldable pub add_contracts : Bool → Dict Contract → Adjacency → Adjacency
add_contracts reverse [] adjacency = adjacency
add_contracts reverse ((identifier, contract) ∷ rest) adjacency =
    add_contracts reverse rest
      (add_dependencies reverse identifier contract.prerequisites adjacency)

-- `adjacency[key].sort()` at every key
unfoldable pub sort_values : Adjacency → Adjacency
sort_values [] = []
sort_values ((key, values) ∷ rest) = (key, sorted values) ∷ sort_values rest

unfoldable pub adjacency_of : Bool → Dict Contract → Adjacency
unfolding add_dependencies add_contracts sort_values
adjacency_of reverse contracts = sort_values (add_contracts reverse contracts [])

-- Some Contract lists the edge, read in the direction of `reverse`.
abbrev pub has_edge : Bool → Dict Contract → String → String → Bool
has_edge reverse [] source target = false
has_edge reverse ((identifier, contract) ∷ rest) source target =
    (if reverse
      then source == identifier && elem target contract.prerequisites
      else target == identifier && elem source contract.prerequisites)
    || has_edge reverse rest source target

neighbors-push :
    (source target s t : String) (adjacency : Adjacency)
    → elem t (neighbors (push s target adjacency) source)
      ≡ (source == s && t == target || elem t (neighbors adjacency source))
neighbors-push source target s t adjacency =
    rw (lookup_list-push s source target adjacency)
      (ground (arith, elem-append t (lookup_list source adjacency) (target ∷ [])))

neighbors-add_dependencies :
    (reverse : Bool) (identifier : String) (deps : List String) (adjacency : Adjacency)
    (source target : String)
    → elem target (neighbors (add_dependencies reverse identifier deps adjacency) source) ≡ (
        (if reverse
          then source == identifier && elem target deps
          else target == identifier && elem source deps)
        || elem target (neighbors adjacency source))
unfolding add_dependencies
neighbors-add_dependencies true i [] adjacency source target = ground arith
neighbors-add_dependencies false i [] adjacency source target = ground arith
neighbors-add_dependencies true i (d ∷ ds) adjacency source target = ground (
  arith,
  neighbors-add_dependencies true i ds (push i d adjacency) source target,
  neighbors-push source d i target adjacency,
)
neighbors-add_dependencies false i (d ∷ ds) adjacency source target = ground (
  arith,
  neighbors-add_dependencies false i ds (push d i adjacency) source target,
  neighbors-push source i d target adjacency,
)

neighbors-add_contracts :
    (reverse : Bool) (contracts : Dict Contract) (adjacency : Adjacency) (source target : String)
    → elem target (neighbors (add_contracts reverse contracts adjacency) source)
      ≡ (has_edge reverse contracts source target || elem target (neighbors adjacency source))
unfolding add_contracts
neighbors-add_contracts reverse [] adjacency source target = refl
neighbors-add_contracts reverse ((i, c) ∷ rest) adjacency source target = ground (
  arith,
  neighbors-add_contracts reverse rest (add_dependencies reverse i c.prerequisites adjacency) source
      target,
  neighbors-add_dependencies reverse i c.prerequisites adjacency source target,
)

neighbors-sort_values :
    (adjacency : Adjacency) (source target : String)
    → elem target (neighbors (sort_values adjacency) source)
      ≡ elem target (neighbors adjacency source)
unfolding sort_values
neighbors-sort_values [] source target = refl
neighbors-sort_values ((key, values) ∷ rest) source target =
    ground (arith, elem-sorted target values, neighbors-sort_values rest source target)

-- An edge of the adjacency is exactly a prerequisite that some Contract lists.
pub neighbors-adjacency_of :
    (reverse : Bool) (contracts : Dict Contract) (source target : String)
    → elem target (neighbors (adjacency_of reverse contracts) source)
      ≡ has_edge reverse contracts source target
unfolding adjacency_of
neighbors-adjacency_of reverse contracts source target = ground (
  arith,
  neighbors-sort_values (add_contracts reverse contracts []) source target,
  neighbors-add_contracts reverse contracts [] source target,
)

-- Reversing the adjacency turns every edge round.
pub has_edge-reverse :
    (contracts : Dict Contract) (source target : String)
    → has_edge true contracts source target ≡ has_edge false contracts target source
has_edge-reverse [] source target = refl
has_edge-reverse ((i, c) ∷ rest) source target = ground (arith, has_edge-reverse rest source target)
