-- ===== src/Oracle/Comparison/Collections.antt =====
-- The comparisons of collections, said without the loops.
use os_bench.Common.{
  all-elem, all_of_elem, String, ◌≡◌, ◌∙◌, sym, ◌↔◌, true, List, ◌++◌, arith, elem, elem-append,
  elem_of_count, count, nat_eq, nat_eq_iff, Bool-cases, Bool-eq_of_iff, inl, inr,
}
use os_bench.Oracle.Comparison.{same_set, same_counts}

-- Two sequences agree as sets exactly if every text is in both or in neither.
pub same_set-elem :
    (xs ys : List String) → (same_set xs ys ≡ true) ↔ ((k : String) → elem k xs ≡ elem k ys)
same_set-elem xs ys = (
  λ h k.
      Bool-eq_of_iff _ _ (all-elem (λ x. elem x ys) xs k (ground arith))
        (all-elem (λ y. elem y xs) ys k (ground arith)),
  λ h.
      let there = all_of_elem (λ x. elem x ys) xs (λ x m. sym (h x) ∙ m) in
      let back = all_of_elem (λ y. elem y xs) ys (λ y m. h y ∙ m) in ground arith,
)

-- Two sequences agree as multisets exactly if every text occurs in both equally often.
pub same_counts-count :
    (xs ys : List String) → (same_counts xs ys ≡ true) ↔ ((k : String) → count k xs ≡ count k ys)
same_counts-count xs ys = (
  λ h k. elim (Bool-cases (elem k (xs ++ ys))) [
    | inl there ↦
        (nat_eq_iff _ _).0 (all-elem (λ x. nat_eq (count x xs) (count x ys)) (xs ++ ys) k h there)
    | inr missing ↦ ground (arith, elem-append k xs ys, elem_of_count k xs, elem_of_count k ys)
  ],
  λ h.
      all_of_elem (λ x. nat_eq (count x xs) (count x ys)) (xs ++ ys)
        (λ x m. (nat_eq_iff _ _).1 (h x)),
)
