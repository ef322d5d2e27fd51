-- ===== src/Graph/Topology/Counting.antt =====
-- How many edges into a node leave sources that are not in the order yet.
use os_bench.Common.{
  ℕ, ◌+◌, String, ◌≡◌, refl, true, false, List, [], ◌∷◌, arith, ◌==◌, eq_iff, eq_refl,
  if◌then◌else◌, elem, count, count-append, elem-count, elem_of_count, nodup, keys, push,
  lookup_list-missing, Bool-cases, inl, inr,
}
use os_bench.Graph.Adjacency.{Adjacency, neighbors}

abbrev pub blocked : String → Adjacency → List String → ℕ
blocked n [] out = 0
blocked n ((k, values) ∷ rest) out = (if elem k out then 0 else count n values) + blocked n rest out

pub blocked-push :
    (n source target : String) (g : Adjacency)
    → blocked n (push source target g) [] ≡ (if n == target then 1 else 0) + blocked n g []
blocked-push n source target [] = ground arith
blocked-push n source target ((k, values) ∷ rest) =
    ground (arith, blocked-push n source target rest, count-append n values (target ∷ []))

pub blocked_congr :
    (n : String) (g : Adjacency) (a b : List String)
    → ((k : String) → elem k a ≡ elem k b)
    → blocked n g a ≡ blocked n g b
blocked_congr n [] a b h = refl
blocked_congr n ((k, values) ∷ rest) a b h = ground (arith, h k, blocked_congr n rest a b h)

blocked_missing :
    (n x : String) (g : Adjacency) (out : List String)
    → elem x (keys g) ≡ false
    → blocked n g (x ∷ out) ≡ blocked n g out
blocked_missing n x [] out h = refl
blocked_missing n x ((k, values) ∷ rest) out h =
    ground (arith, blocked_missing n x rest out, eq_iff x k, eq_iff k x)

-- Taking a source into the order unblocks its edges.
pub blocked-cons :
    (n x : String) (g : Adjacency) (out : List String)
    → nodup (keys g) ≡ true
    → elem x out ≡ false
    → blocked n g (x ∷ out) + count n (neighbors g x) ≡ blocked n g out
blocked-cons n x [] out d h = omega arith
blocked-cons n x ((k, values) ∷ rest) out d h = elim (Bool-cases (x == k)) [
  | inl e ↦ ground (arith, eq_iff x k, eq_iff k x, blocked_missing n x rest out)
  | inr e ↦ ground (arith, blocked-cons n x rest out, eq_iff x k, eq_iff k x)
]

-- Where nothing is blocked every source is in the order.
pub blocked-zero :
    (a n : String) (g : Adjacency) (out : List String)
    → blocked n g out ≡ 0
    → elem n (neighbors g a) ≡ true
    → elem a out ≡ true
blocked-zero a n [] out h e = ground arith
blocked-zero a n ((k, values) ∷ rest) out h e =
    ground (arith, blocked-zero a n rest out, elem-count n values, eq_iff a k)

-- Where every source is in the order nothing is blocked.
pub blocked_none :
    (n : String) (g : Adjacency) (out : List String)
    → ((a : String) → elem n (neighbors g a) ≡ true → elem a out ≡ true)
    → nodup (keys g) ≡ true
    → blocked n g out ≡ 0
blocked_none n [] out h d = refl
blocked_none n ((k, values) ∷ rest) out h d =
    ground (arith, blocked_none n rest out later, h k, eq_refl k, elem_of_count n values)
  where
    later : (a : String) → elem n (neighbors rest a) ≡ true → elem a out ≡ true
    later a e = ground (arith, h a, lookup_list-missing a rest, eq_iff a k)
