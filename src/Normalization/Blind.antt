-- ===== src/Normalization/Blind.antt =====
-- Normalization forgets what the Contract's rules declare (src/osbench/normalization.py).
use os_bench.Common.{String, ◌≡◌, refl, ap, ◌∙◌, sym, true, List, ◌∷◌, some, elem}
use os_bench.Normalization.Trees.{
  Json, text, array, object, Elements, none_left, element, Members, no_more, member,
}
use os_bench.Normalization.{
  TextMethods, masked_value, placeholder, order_members, walk, walk_elements, walk_members, timed,
  if_rules, rules_of, normalize_observation,
}

module _ (methods : TextMethods) (rules : List String) where
  -- Values that differ at most in what stands at masked keys, and in temporary paths if these are
  -- to be replaced.
  mutual
    pub data Alike : Json → Json → Type 0 where
      same : {v : Json} → Alike v v
      paths :
          {s t : String}
          → elem "temporary_paths" rules ≡ true
          → methods.sub_tmp (methods.sub_osbench s) ≡ methods.sub_tmp (methods.sub_osbench t)
          → Alike (text s) (text t)
      arrays : {xs ys : Elements} → AlikeElements xs ys → Alike (array xs) (array ys)
      objects : {a b : Members} → AlikeMembers a b → Alike (object a) (object b)

    pub data AlikeElements : Elements → Elements → Type 0 where
      both_empty : AlikeElements none_left none_left
      both :
          {x y : Json} {xs ys : Elements}
          → Alike x y
          → AlikeElements xs ys
          → AlikeElements (element x xs) (element y ys)

    pub data AlikeMembers : Members → Members → Type 0 where
      both_end : AlikeMembers no_more no_more
      masked :
          {k mask : String} {v w : Json} {a b : Members}
          → placeholder methods rules k ≡ some mask
          → AlikeMembers a b
          → AlikeMembers (member k v a) (member k w b)
      open_key :
          {k : String} {v w : Json} {a b : Members}
          → Alike v w
          → AlikeMembers a b
          → AlikeMembers (member k v a) (member k w b)

  mutual
    unfolding walk

    walk-Alike : {v w : Json} → Alike v w → walk methods rules v ≡ walk methods rules w
    walk-Alike same = refl
    walk-Alike (paths on e) = rw on (ap text e)
    walk-Alike (arrays p) = ap array (walk_elements-Alike p)
    walk-Alike (objects p) = ap (λ m. object (order_members methods rules m)) (walk_members-Alike p)

    walk_elements-Alike :
        {xs ys : Elements}
        → AlikeElements xs ys
        → walk_elements methods rules xs ≡ walk_elements methods rules ys
    walk_elements-Alike both_empty = refl
    walk_elements-Alike (both p q) = cc (walk-Alike p, walk_elements-Alike q)

    walk_members-Alike :
        {a b : Members}
        → AlikeMembers a b
        → walk_members methods rules a ≡ walk_members methods rules b
    walk_members-Alike both_end = refl
    walk_members-Alike (masked {k} {mask} {v} {w} {a} {b} e q) =
        ap (λ o. member k (masked_value o (walk methods rules v)) (walk_members methods rules a)) e
        ∙ ap (member k (text mask)) (walk_members-Alike q)
        ∙ ap (λ o. member k (masked_value o (walk methods rules w)) (walk_members methods rules b))
            (sym e)
    walk_members-Alike (open_key {k} {v} {w} {a} {b} p q) =
        ap
          (λ x.
            member k (masked_value (placeholder methods rules k) x) (walk_members methods rules a))
          (walk-Alike p)
        ∙ ap (member k (masked_value (placeholder methods rules k) (walk methods rules w)))
            (walk_members-Alike q)

-- Observations of a Contract with some rule, which apart from the duration, where that is dropped,
-- differ at most in masked values and in temporary paths that are replaced, normalize alike.
pub normalize_observation-Alike :
    (methods : TextMethods) (observables normalization : List String) (a b : Members)
    → AlikeMembers methods (rules_of normalization) (timed observables a) (timed observables b)
    → (rule : String) (rest : List String) → rules_of normalization ≡ rule ∷ rest
    → normalize_observation methods observables normalization a
      ≡ normalize_observation methods observables normalization b
unfolding normalize_observation
normalize_observation-Alike methods observables normalization a b alike rule rest some_rule =
    let rules = rules_of normalization in
    let walked = λ (m : Members). order_members methods rules (walk_members methods rules m) in
    ap (λ r. if_rules r (timed observables a) (walked (timed observables a))) some_rule
    ∙ ap (order_members methods rules) (walk_members-Alike methods rules alike)
    ∙ ap (λ r. if_rules r (timed observables b) (walked (timed observables b))) (sym some_rule)
