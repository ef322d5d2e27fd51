-- ===== src/Common/Items.antt =====
-- `sorted(mapping.items())`: the pairs in the order of their keys.
use os_bench.Common.Tests.{if◌then◌else◌}
use mathlib.Core.Bool.{Bool, true, false, ◌||◌}
use mathlib.Core.Path.{◌∙◌, ◌≡◌, refl}
use os_bench.Common.{
  String, List, [], ◌∷◌, ◌==◌, eq_iff, eq_refl, arith, elem, nodup, Dict, keys, lookup, some,
}
use os_bench.Common.Sort.{sort_by, insert_sorted}
use os_bench.Common.Text.{text_leb}

module _ {ℓ} {V : Type ℓ} where
  abbrev pub key_leb : String × V → String × V → Bool
  key_leb a b = text_leb a.0 b.0

  abbrev pub sorted_items : Dict V → List (String × V)
  sorted_items d = sort_by key_leb d

  elem-keys-insert_sorted :
      (k : String) (item : String × V) (d : Dict V)
      → elem k (keys (insert_sorted key_leb item d)) ≡ (k == item.0 || elem k (keys d))
  unfolding insert_sorted
  elem-keys-insert_sorted k (i, v) [] = refl
  elem-keys-insert_sorted k (i, v) ((j, w) ∷ d) = ground (arith, elem-keys-insert_sorted k (i, v) d)

  lookup-insert_sorted :
      (k : String) (item : String × V) (d : Dict V)
      → elem item.0 (keys d) ≡ false
      → lookup k (insert_sorted key_leb item d) ≡ (if k == item.0 then some item.1 else lookup k d)
  unfolding insert_sorted
  lookup-insert_sorted k (i, v) [] h = refl
  lookup-insert_sorted k (i, v) ((j, w) ∷ d) h =
      ground (arith, lookup-insert_sorted k (i, v) d, eq_iff k i, eq_iff k j, eq_refl i)

  pub elem-keys-sorted_items :
      (k : String) (d : Dict V) → elem k (keys (sorted_items d)) ≡ elem k (keys d)
  unfolding sort_by
  elem-keys-sorted_items k [] = refl
  elem-keys-sorted_items k ((i, v) ∷ d) =
      ground (arith, elem-keys-insert_sorted k (i, v) (sorted_items d), elem-keys-sorted_items k d)

  -- Sorting the items of a mapping keeps what its keys lead to.
  pub lookup-sorted_items :
      (k : String) (d : Dict V) → nodup (keys d) ≡ true → lookup k (sorted_items d) ≡ lookup k d
  unfolding sort_by
  lookup-sorted_items k [] h = refl
  lookup-sorted_items k ((i, v) ∷ d) h = ground (
    arith,
    lookup-insert_sorted k (i, v) (sorted_items d),
    lookup-sorted_items k d,
    elem-keys-sorted_items i d,
  )

  nodup-keys-insert_sorted :
      (item : String × V) (d : Dict V)
      → elem item.0 (keys d) ≡ false
      → nodup (keys d) ≡ true
      → nodup (keys (insert_sorted key_leb item d)) ≡ true
  unfolding insert_sorted
  nodup-keys-insert_sorted (i, v) [] h n = refl
  nodup-keys-insert_sorted (i, v) ((j, w) ∷ d) h n = ground (
    arith,
    nodup-keys-insert_sorted (i, v) d,
    elem-keys-insert_sorted j (i, v) d,
    eq_iff i j,
    eq_iff j i,
  )

  pub nodup-keys-sorted_items :
      (d : Dict V) → nodup (keys d) ≡ true → nodup (keys (sorted_items d)) ≡ true
  unfolding sort_by
  nodup-keys-sorted_items [] h = refl
  nodup-keys-sorted_items ((i, v) ∷ d) h =
      nodup-keys-insert_sorted (i, v) (sorted_items d) (elem-keys-sorted_items i d ∙ ground arith)
        (nodup-keys-sorted_items d (ground arith))
