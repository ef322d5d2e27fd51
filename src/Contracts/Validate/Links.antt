-- ===== src/Contracts/Validate/Links.antt =====
-- The second loop reports nothing exactly if every reference is sound.
use os_bench.Common.{
  String, ◌≡◌, refl, ◌↔◌, Bool, true, false, ◌&&◌, List, [], ◌∷◌, ◌++◌, arith, ltb, elem, length,
  all,
}
use os_bench.Contracts.Model.{Contract}
use os_bench.Contracts.Validate.{
  issue_if, prerequisite_issues, orthogonal_issues, contract_issues, link_issues,
}
use os_bench.Contracts.Validate.Corpus.{refers, linked}

pub append-eq-nil : {A : Type 0} (xs ys : List A) → (xs ++ ys ≡ []) ↔ ((xs ≡ []) × (ys ≡ []))
append-eq-nil [] ys = (λ h. (refl, h), λ h. h.1)
append-eq-nil (x ∷ xs) ys = (λ h. absurd (cc h), λ h. absurd (cc (h.0)))

prerequisite_issues-nil :
    (known : List String) (identifier : String) (ds : List String)
    → (prerequisite_issues known identifier ds ≡ []) ↔ (refers known identifier ds ≡ true)
unfolding prerequisite_issues
prerequisite_issues-nil known i [] = ground arith
prerequisite_issues-nil known i (d ∷ ds) = ground (arith, prerequisite_issues-nil known i ds)

orthogonal_issues-nil :
    (known : List String) (identifier : String) (ds : List String)
    → (orthogonal_issues known identifier ds ≡ []) ↔ (refers known identifier ds ≡ true)
unfolding orthogonal_issues
orthogonal_issues-nil known i [] = ground arith
orthogonal_issues-nil known i (d ∷ ds) = ground (arith, orthogonal_issues-nil known i ds)

issue_if-nil :
    (bad : Bool) (path : String) (parts : List String)
    → (issue_if bad path parts ≡ []) ↔ (bad ≡ false)
issue_if-nil bad path parts = ground arith

contract_issues-nil :
    (known : List String) (c : Contract) → (contract_issues known c ≡ []) ↔ (linked known c ≡ true)
unfolding contract_issues
contract_issues-nil known c =
    let pre = prerequisite_issues known c.id c.prerequisites in
    let orth = orthogonal_issues known c.id c.orthogonal_with in
    let none_combined = elem "none" c.normalization && ltb 1 (length c.normalization) in
    let norm = issue_if none_combined c.id ("normalization 'none' cannot be combined" ∷ []) in
    ground (
      arith,
      append-eq-nil pre (orth ++ norm),
      append-eq-nil orth norm,
      issue_if-nil none_combined c.id ("normalization 'none' cannot be combined" ∷ []),
      prerequisite_issues-nil known c.id c.prerequisites,
      orthogonal_issues-nil known c.id c.orthogonal_with,
    )

pub link_issues-nil :
    (known : List String) (cs : List Contract)
    → (link_issues known cs ≡ []) ↔ (all (linked known) cs ≡ true)
unfolding link_issues
link_issues-nil known [] = ground arith
link_issues-nil known (c ∷ cs) = ground (
  arith,
  append-eq-nil (contract_issues known c) (link_issues known cs),
  contract_issues-nil known c,
  link_issues-nil known cs,
)
