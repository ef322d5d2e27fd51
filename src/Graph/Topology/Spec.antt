-- ===== src/Graph/Topology/Spec.antt =====
-- What a topological order of a graph document is: oldest first, every node once, and before a
-- node every source of an edge into it.
use os_bench.Common.{
  String, ◌≡◌, refl, Bool, true, false, ◌&&◌, ◌||◌, List, [], ◌∷◌, ◌++◌, arith, ◌==◌, elem, nodup,
  keys,
}
use os_bench.Precedence.{Relation, IsTopological}
use os_bench.Graph.Topology.{Graph, Edge}

-- `before a n`: the document has an edge from `a` to `n`.
abbrev pub edge_in : List Edge → Relation
edge_in [] a n = false
edge_in (e ∷ es) a n = (a == e.source && n == e.target) || edge_in es a n

-- every edge leads to a node, as prerequisites of a valid corpus do
abbrev pub targets_known : List String → List Edge → Bool
targets_known nodes [] = true
targets_known nodes (e ∷ es) = elem e.target nodes && targets_known nodes es

abbrev pub IsOrdered : Relation → List String → List String → Type 0
IsOrdered before seen [] = Unit {0}
IsOrdered before seen (n ∷ rest) =
    ((a : String) → before a n ≡ true → elem a seen ≡ true) × IsOrdered before (n ∷ seen) rest

pub record IsTopologicalOrder (graph : Graph) (order : List String) : Type 0 where
  pub ordered : IsOrdered (edge_in graph.edges) [] order
  pub distinct : nodup order ≡ true
  pub covers : (n : String) → elem n order ≡ elem n (keys graph.nodes)

module _ (before : Relation) where
  pub IsOrdered-concat :
      (seen xs : List String) (n : String)
      → IsOrdered before seen xs
      → ((a : String) → before a n ≡ true → (elem a xs || elem a seen) ≡ true)
      → IsOrdered before seen (xs ++ n ∷ [])
  IsOrdered-concat seen [] n o h = (h, tt)
  IsOrdered-concat seen (x ∷ xs) n o h =
      (o.0, IsOrdered-concat (x ∷ seen) xs n o.1 (λ a e. ground (arith, h a e)))

  -- oldest first, turned round behind what was seen before
  pub IsOrdered-IsTopological :
      (seen xs : List String)
      → IsTopological before seen
      → IsOrdered before seen xs
      → (newest : List String) × IsTopological before newest
        × ((k : String) → elem k newest ≡ (elem k xs || elem k seen))
  IsOrdered-IsTopological seen [] t o = (seen, t, λ k. refl)
  IsOrdered-IsTopological seen (x ∷ xs) t o =
      let (newest, t', same) = IsOrdered-IsTopological (x ∷ seen) xs (o.0, t) o.1 in
      (newest, t', λ k. ground (arith, same k))
