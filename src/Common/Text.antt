-- ===== src/Common/Text.antt =====
-- The order of Python strings, by code points: total, transitive and antisymmetric.
use Prim.Native.Nat.{compare as compare_nat, Ordering}
use Prim.Native.Char.{code}
use Prim.Native.String.{String, [], ◌∷◌, ◌++◌, compare}
use mathlib.Core.List.{List, [] as nil, ◌∷◌ as cons}
use Prim.Native.String.compare
use mathlib.Core.Path.{◌≡◌, refl}
use mathlib.Core.Logic.{◌⊎◌, inl, inr}
use mathlib.Core.Bool.{Bool, true, false}
use native.Mathlib.Omega.{arith}
use text.Mathlib.TextEquality.{path_by_compare}

-- `s <= t`
unfoldable pub text_leb : String → String → Bool
text_leb s t = elim (compare s t) [ Ordering.gt ↦ false | _ ↦ true ]

-- The order by recursion on the characters.
before : String → String → Bool
before [] t = true
before (c ∷ s) [] = false
before (c ∷ s) (d ∷ t) = elim (compare_nat (code c) (code d)) [
  | Ordering.lt ↦ true
  | Ordering.eq ↦ before s t
  | Ordering.gt ↦ false
]

text_leb-before : (s t : String) → text_leb s t ≡ before s t
unfolding text_leb before
text_leb-before [] [] = refl
text_leb-before [] (d ∷ t) = rw (compare.nil-cons d t, text_leb) refl
text_leb-before (c ∷ s) [] = rw (compare.cons-nil c s, text_leb) refl
text_leb-before (c ∷ s) (d ∷ t) =
    rw (compare.cons-cons c d s t, text_leb) (ground (arith, text_leb-before s t))

before_total : (s t : String) → (before s t ≡ true) ⊎ (before t s ≡ true)
unfolding before
before_total [] t = inl refl
before_total (c ∷ s) [] = inr refl
before_total (c ∷ s) (d ∷ t) = ground (arith, before_total s t)

before_trans : (s t u : String) → before s t ≡ true → before t u ≡ true → before s u ≡ true
unfolding before
before_trans [] t u p q = refl
before_trans (c ∷ s) [] u p q = ground arith
before_trans (c ∷ s) (d ∷ t) [] p q = ground arith
before_trans (c ∷ s) (d ∷ t) (e ∷ u) p q = ground (arith, before_trans s t u)

before_antisymm : (s t : String) → before s t ≡ true → before t s ≡ true → compare s t ≡ Ordering.eq
unfolding before
before_antisymm [] [] p q = refl
before_antisymm [] (d ∷ t) p q = ground arith
before_antisymm (c ∷ s) [] p q = ground arith
before_antisymm (c ∷ s) (d ∷ t) p q =
    rw (compare.cons-cons c d s t) (ground (arith, before_antisymm s t))

pub text_leb_total : (s t : String) → (text_leb s t ≡ true) ⊎ (text_leb t s ≡ true)
text_leb_total s t = ground (arith, text_leb-before s t, text_leb-before t s, before_total s t)

pub text_leb_trans :
    (s t u : String) → text_leb s t ≡ true → text_leb t u ≡ true → text_leb s u ≡ true
text_leb_trans s t u p q =
    ground
      (arith, text_leb-before s t, text_leb-before t u, text_leb-before s u, before_trans s t u)

pub text_leb_antisymm : (s t : String) → text_leb s t ≡ true → text_leb t s ≡ true → s ≡ t
text_leb_antisymm s t p q = path_by_compare s t (
    before_antisymm s t (ground (arith, text_leb-before s t)) (ground (arith, text_leb-before t s)))

-- an f-string, or `"".join(parts)`
unfoldable pub concat : List String → String
concat nil = ""
concat (cons s rest) = s ++ concat rest

-- `separator.join(parts)`
pub join : String → List String → String
join separator nil = ""
join separator (cons s nil) = s
join separator (cons s (cons t rest)) = s ++ (separator ++ join separator (cons t rest))
