-- ===== src/Common/Dicts.antt =====
-- Python dictionaries with text keys, as association lists in insertion order.
use Prim.Native.String.{String}
use mathlib.Core.Path.{◌≡◌, refl}
use mathlib.Core.Logic.{◌↔◌}
use mathlib.Core.Bool.{true, false}
use mathlib.Core.Option.{Option, none, some}
use mathlib.Core.List.{List, [], ◌∷◌, ◌++◌}
use native.Mathlib.Omega.{arith}
use text.Mathlib.Text.{◌==◌}
use text.Mathlib.TextEquality.{eq_iff}
use os_bench.Common.Tests.{if◌then◌else◌}
use os_bench.Common.Members.{elem, nodup}

abbrev pub Dict {ℓ} : Type ℓ → Type ℓ
Dict V = List (String × V)

module _ {ℓ} {V : Type ℓ} where
  abbrev pub keys : Dict V → List String
  keys [] = []
  keys ((j, v) ∷ m) = j ∷ keys m

  -- `d.get(k)`
  abbrev pub lookup : String → Dict V → Option V
  lookup k [] = none
  lookup k ((j, v) ∷ m) = if k == j then some v else lookup k m

  -- `d[k] = v`: an old key keeps its place, a new one goes to the end
  abbrev pub insert : String → V → Dict V → Dict V
  insert k v [] = (k, v) ∷ []
  insert k v ((j, w) ∷ m) = if k == j then (j, v) ∷ m else (j, w) ∷ insert k v m

  -- `d[k].append(v)` on a `defaultdict(list)`
  abbrev pub push : String → V → Dict (List V) → Dict (List V)
  push k v [] = (k, v ∷ []) ∷ []
  push k v ((j, vs) ∷ m) = if k == j then (j, vs ++ v ∷ []) ∷ m else (j, vs) ∷ push k v m

  -- `d.get(k, [])`
  abbrev pub lookup_list : String → Dict (List V) → List V
  lookup_list k [] = []
  lookup_list k ((j, vs) ∷ m) = if k == j then vs else lookup_list k m

  pub elem-keys-insert :
      (k j : String) (v : V) (m : Dict V)
      → elem j (keys (insert k v m)) ≡ (if j == k then true else elem j (keys m))
  elem-keys-insert k j v [] = ground arith
  elem-keys-insert k j v ((i, w) ∷ m) =
      ground (arith, elem-keys-insert k j v m, eq_iff k i, eq_iff j i, eq_iff j k)

  pub nodup-keys-insert :
      (k : String) (v : V) (m : Dict V) → nodup (keys m) ≡ true → nodup (keys (insert k v m)) ≡ true
  nodup-keys-insert k v [] h = refl
  nodup-keys-insert k v ((i, w) ∷ m) h =
      ground (arith, nodup-keys-insert k v m, elem-keys-insert k i v m, eq_iff k i, eq_iff i k)

  pub lookup-none_iff : (k : String) (m : Dict V) → (lookup k m ≡ none) ↔ (elem k (keys m) ≡ false)
  lookup-none_iff k [] = (λ _. refl, λ _. refl)
  lookup-none_iff k ((i, w) ∷ m) = ground (arith, lookup-none_iff k m)

  pub lookup-insert :
      (k j : String) (v : V) (m : Dict V)
      → lookup j (insert k v m) ≡ (if j == k then some v else lookup j m)
  lookup-insert k j v [] = refl
  lookup-insert k j v ((i, w) ∷ m) =
      ground (arith, eq_iff k j, eq_iff k i, eq_iff j i, eq_iff j k, lookup-insert k j v m)

  pub lookup_list-push :
      (k j : String) (v : V) (m : Dict (List V))
      → lookup_list j (push k v m) ≡ (if j == k then lookup_list j m ++ v ∷ [] else lookup_list j m)
  lookup_list-push k j v [] = ground arith
  lookup_list-push k j v ((i, w) ∷ m) =
      ground (arith, eq_iff k j, eq_iff k i, eq_iff j i, eq_iff j k, lookup_list-push k j v m)

module _ {ℓ} {V : Type ℓ} where
  pub elem-keys-push :
      (k j : String) (v : V) (m : Dict (List V))
      → elem j (keys (push k v m)) ≡ (if j == k then true else elem j (keys m))
  elem-keys-push k j v [] = ground arith
  elem-keys-push k j v ((i, w) ∷ m) =
      ground (arith, elem-keys-push k j v m, eq_iff k i, eq_iff j i, eq_iff j k)

  pub nodup-keys-push :
      (k : String) (v : V) (m : Dict (List V))
      → nodup (keys m) ≡ true
      → nodup (keys (push k v m)) ≡ true
  nodup-keys-push k v [] h = refl
  nodup-keys-push k v ((i, vs) ∷ m) h =
      ground (arith, nodup-keys-push k v m, elem-keys-push k i v m, eq_iff k i, eq_iff i k)

  pub lookup_list-missing :
      (k : String) (m : Dict (List V)) → elem k (keys m) ≡ false → lookup_list k m ≡ []
  lookup_list-missing k [] h = refl
  lookup_list-missing k ((i, vs) ∷ m) h = ground (arith, lookup_list-missing k m)

-- `values.get(key, default)`
abbrev pub get_or {ℓ} : {A : Type ℓ} → Option A → A → A
get_or none default = default
get_or (some a) default = a
