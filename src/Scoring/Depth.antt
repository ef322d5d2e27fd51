-- ===== src/Scoring/Depth.antt =====
-- The depth is the last level of the longest prefix of the levels that is reached throughout.
use mathlib.Core.List.{append_assoc, append-nil}
use os_bench.Common.{
  ℕ, ◌+◌, String, ◌≡◌, refl, ap, ◌∙◌, Bool, true, false, not, ◌&&◌, List, [], ◌∷◌, ◌++◌, arith,
  Option, none, some, Dict, count_if, length, if◌then◌else◌, Bool-cases, inl, inr,
}
use os_bench.Contracts.Model.{Contract}
use os_bench.Oracle.Aggregate.{Rate}
use os_bench.Scoring.{levels, depth_ids, depth_loop, depth, has_full_score, is_nonempty}

abbrev pub last_of : Option String → List String → Option String
last_of d [] = d
last_of d (x ∷ xs) = last_of (some x) xs

module _ (below : ℕ → ℕ → Bool) (contracts : Dict Contract) (scores : Dict Rate)
    (observed_only : Bool) where
  -- the Contracts that count at the levels, and how many of them have a full score
  abbrev pub total_in : List String → ℕ
  total_in [] = 0
  total_in (l ∷ ls) = length (depth_ids below contracts scores observed_only l) + total_in ls

  abbrev pub passed_in : List String → ℕ
  passed_in [] = 0
  passed_in (l ∷ ls) =
      count_if (has_full_score scores) (depth_ids below contracts scores observed_only l)
      + passed_in ls

  -- After the levels `seen`, the next has Contracts, and of all of them up to it enough pass.
  abbrev pub is_reached : List String → String → Bool
  is_reached seen level =
      is_nonempty (depth_ids below contracts scores observed_only level)
      && not (below (passed_in (seen ++ level ∷ [])) (total_in (seen ++ level ∷ [])))

  abbrev pub AllReached : List String → List String → Type 0
  AllReached seen [] = Unit {0}
  AllReached seen (l ∷ ls) = (is_reached seen l ≡ true) × AllReached (seen ++ l ∷ []) ls

  -- The levels end, or the next is not reached.
  abbrev pub Stops : List String → List String → Type 0
  Stops seen [] = Unit {0}
  Stops seen (l ∷ ls) = is_reached seen l ≡ false

  total_in-append : (xs ys : List String) → total_in (xs ++ ys) ≡ total_in xs + total_in ys
  total_in-append [] ys = omega arith
  total_in-append (x ∷ xs) ys = omega (arith, total_in-append xs ys)

  passed_in-append : (xs ys : List String) → passed_in (xs ++ ys) ≡ passed_in xs + passed_in ys
  passed_in-append [] ys = omega arith
  passed_in-append (x ∷ xs) ys = omega (arith, passed_in-append xs ys)

  abbrev Prefix : List String → List String → Option String → Option String → Type 0
  Prefix seen rest d result =
      (reached : List String) × (left : List String) × (rest ≡ reached ++ left)
      × (result ≡ last_of d reached)
      × AllReached seen reached
      × Stops (seen ++ reached) left

  choose :
      (nonempty low : Bool) (d deeper : Option String)
      → (if not nonempty then d else if low then d else deeper)
        ≡ (if nonempty && not low then deeper else d)
  choose true true d deeper = refl
  choose true false d deeper = refl
  choose false low d deeper = refl

  abbrev loop : Option String → ℕ → ℕ → List String → Option String
  loop d passed total ls = depth_loop below contracts scores observed_only d passed total ls

  -- the loop past a level that is reached
  abbrev after : List String → String → List String → Option String
  after seen l ls = loop (some l) (passed_in (seen ++ l ∷ [])) (total_in (seen ++ l ∷ [])) ls

  -- one round of the loop, said of the levels instead of the counts
  loop_step :
      (seen ls : List String) (l : String) (d : Option String)
      → loop d (passed_in seen) (total_in seen) (l ∷ ls)
        ≡ (if is_reached seen l then after seen l ls else d)
  unfolding depth_loop
  loop_step seen ls l d =
      let ids = depth_ids below contracts scores observed_only l in
      let body = λ (p t : ℕ).
        if not (is_nonempty ids) then d else if below p t then d else loop (some l) p t ls in
      let p : passed_in seen + count_if (has_full_score scores) ids ≡ passed_in (seen ++ l ∷ []) =
        omega (arith, passed_in-append seen (l ∷ [])) in
      let t : total_in seen + length ids ≡ total_in (seen ++ l ∷ []) =
        omega (arith, total_in-append seen (l ∷ [])) in
      ap (λ x. body x (total_in seen + length ids)) p
      ∙ ap (body (passed_in (seen ++ l ∷ []))) t
      ∙ choose (is_nonempty ids) (below (passed_in (seen ++ l ∷ [])) (total_in (seen ++ l ∷ []))) d
          (after seen l ls)

  loop-Prefix :
      (seen rest : List String) (d : Option String)
      → Prefix seen rest d (loop d (passed_in seen) (total_in seen) rest)
  unfolding depth_loop
  loop-Prefix seen [] d = ([], [], refl, refl, tt, tt)
  loop-Prefix seen (l ∷ ls) d = elim (Bool-cases (is_reached seen l)) [
    | inr stop ↦ (
      [],
      l ∷ ls,
      refl,
      loop_step seen ls l d ∙ ap (λ b. if b then after seen l ls else d) stop,
      tt,
      rw (append-nil seen) stop,
    )
    | inl go ↦
        let (reached, left, split, last, all_reached, stops) =
          loop-Prefix (seen ++ l ∷ []) ls (some l) in
        (
          l ∷ reached,
          left,
          ap (◌∷◌ l) split,
          loop_step seen ls l d ∙ ap (λ b. if b then after seen l ls else d) go ∙ last,
          (go, all_reached),
          rw (← append_assoc seen (l ∷ []) reached) stops,
        )
  ]

-- The levels split into a prefix and a rest such that the depth is the last level of the prefix,
-- or none if that is empty; every level of the prefix has Contracts and, of all Contracts up to
-- it, a share that the threshold accepts; and the first level of the rest, if any, does not.
pub depth-Prefix :
    (below : ℕ → ℕ → Bool) (contracts : Dict Contract) (scores : Dict Rate) (observed_only : Bool)
    → (reached : List String) × (left : List String) × (levels ≡ reached ++ left)
      × (depth below contracts scores observed_only ≡ last_of none reached)
      × AllReached below contracts scores observed_only [] reached
      × Stops below contracts scores observed_only reached left
unfolding depth
depth-Prefix below contracts scores observed_only =
    loop-Prefix below contracts scores observed_only [] levels none
