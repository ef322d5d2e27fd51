-- ===== src/Common/Groups.antt =====
-- `grouped[key(item)].append(item)` over a sequence, and what the groups hold.
use mathlib.Core.List.{append_assoc, append-nil}
use os_bench.Common.{
  String, ◌≡◌, refl, ap, ◌∙◌, sym, Bool, true, false, ◌||◌, List, [], ◌∷◌, ◌++◌, arith, ◌==◌,
  if◌then◌else◌, elem, nodup, any, keep, Dict, keys, lookup, lookup_list, push, lookup_list-push,
  elem-keys-push, nodup-keys-push, none, some,
}

module _ {ℓ} {A : Type ℓ} (key : A → String) where
  unfoldable pub group_into : List A → Dict (List A) → Dict (List A)
  group_into [] grouped = grouped
  group_into (x ∷ xs) grouped = group_into xs (push (key x) x grouped)

  unfoldable pub group_by : List A → Dict (List A)
  unfolding group_into
  group_by xs = group_into xs []

  lookup_list-group_into :
      (k : String) (xs : List A) (d : Dict (List A))
      → lookup_list k (group_into xs d) ≡ lookup_list k d ++ keep (λ x. k == key x) xs
  unfolding group_into
  lookup_list-group_into k [] d = sym (append-nil (lookup_list k d))
  lookup_list-group_into k (x ∷ xs) d =
      lookup_list-group_into k xs (push (key x) x d)
      ∙ ap (λ v. v ++ keep (λ y. k == key y) xs) (lookup_list-push (key x) k x d)
      ∙ joined (k == key x)
    where
      joined :
          (same : Bool)
          → (if same then lookup_list k d ++ x ∷ [] else lookup_list k d)
              ++ keep (λ y. k == key y) xs
            ≡ lookup_list k d
              ++ (if same then x ∷ keep (λ y. k == key y) xs else keep (λ y. k == key y) xs)
      joined true = append_assoc (lookup_list k d) (x ∷ []) (keep (λ y. k == key y) xs)
      joined false = refl

  -- A group holds the items with its key, in their order.
  pub lookup_list-group_by :
      (k : String) (xs : List A) → lookup_list k (group_by xs) ≡ keep (λ x. k == key x) xs
  unfolding group_by
  lookup_list-group_by k xs = lookup_list-group_into k xs []

  elem-keys-group_into :
      (k : String) (xs : List A) (d : Dict (List A))
      → elem k (keys (group_into xs d)) ≡ (any (λ x. k == key x) xs || elem k (keys d))
  unfolding group_into
  elem-keys-group_into k [] d = refl
  elem-keys-group_into k (x ∷ xs) d =
      elem-keys-group_into k xs (push (key x) x d) ∙ ground (arith, elem-keys-push (key x) k x d)

  pub elem-keys-group_by :
      (k : String) (xs : List A) → elem k (keys (group_by xs)) ≡ any (λ x. k == key x) xs
  unfolding group_by
  elem-keys-group_by k xs = elem-keys-group_into k xs [] ∙ ground arith

  nodup-keys-group_into :
      (xs : List A) (d : Dict (List A))
      → nodup (keys d) ≡ true
      → nodup (keys (group_into xs d)) ≡ true
  unfolding group_into
  nodup-keys-group_into [] d h = h
  nodup-keys-group_into (x ∷ xs) d h =
      nodup-keys-group_into xs (push (key x) x d) (nodup-keys-push (key x) x d h)

  pub nodup-keys-group_by : (xs : List A) → nodup (keys (group_by xs)) ≡ true
  unfolding group_by
  nodup-keys-group_by xs = nodup-keys-group_into xs [] refl

  pub lookup-lookup_list :
      (k : String) (d : Dict (List A))
      → lookup k d ≡ (if elem k (keys d) then some (lookup_list k d) else none)
  lookup-lookup_list k [] = refl
  lookup-lookup_list k ((j, v) ∷ d) = ground (arith, lookup-lookup_list k d)

  -- A key leads to a group exactly if some item has it.
  pub lookup-group_by :
      (k : String) (xs : List A)
      → lookup k (group_by xs)
        ≡ (if any (λ x. k == key x) xs then some (keep (λ x. k == key x) xs) else none)
  lookup-group_by k xs =
      lookup-lookup_list k (group_by xs)
      ∙ ap (λ b. if b then some (lookup_list k (group_by xs)) else none) (elem-keys-group_by k xs)
      ∙ ap (λ v. if any (λ x. k == key x) xs then some v else none) (lookup_list-group_by k xs)
