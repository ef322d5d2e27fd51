-- ===== src/Contracts/Validate/Scanned.antt =====
-- The first loop reports nothing exactly if the files are accepted and their ids distinct.
use mathlib.Core.List.{append-nil, append_assoc}
use os_bench.Common.{
  String, ◌≡◌, ◌≢◌, refl, ap, sym, ◌↔◌, inl, inr, Bool, true, not, ◌&&◌, ◌||◌, some, List, [], ◌∷◌,
  ◌++◌, arith, ◌==◌, eq_iff, elem, nodup, keys, lookup, insert, elem-keys-insert, length, all,
  Option-cases, lookup-none_iff,
}
use os_bench.Common.Sort.{sort_by, length-sort_by}
use os_bench.Contracts.Model.{Contract}
use os_bench.Contracts.Validate.{
  ContractIssue, SchemaError, schema_issues, FileRead, unreadable, not_mapping, mapping, Scan,
  scan_file, scan_files, add_contract, ids,
}
use os_bench.Contracts.Validate.Corpus.{accepted, documents}
use os_bench.Contracts.Validate.Links.{append-eq-nil}

-- The ids are new and distinct.
abbrev pub fresh : List String → List String → Bool
fresh seen [] = true
fresh seen (x ∷ xs) = not (elem x seen) && fresh (x ∷ seen) xs

fresh_congr :
    (a b xs : List String) → ((x : String) → elem x a ≡ elem x b) → fresh a xs ≡ fresh b xs
fresh_congr a b [] h = refl
fresh_congr a b (x ∷ xs) h = rw (h x) (
    ap (λ r. not (elem x b) && r)
      (fresh_congr (x ∷ a) (x ∷ b) xs (λ y. ap (λ r. y == x || r) (h y))))

abbrev pub disjoint : List String → List String → Bool
disjoint seen [] = true
disjoint seen (x ∷ xs) = not (elem x seen) && disjoint seen xs

disjoint-cons :
    (y : String) (seen xs : List String)
    → disjoint (y ∷ seen) xs ≡ (not (elem y xs) && disjoint seen xs)
disjoint-cons y seen [] = refl
disjoint-cons y seen (x ∷ xs) = ground (arith, disjoint-cons y seen xs, eq_iff x y, eq_iff y x)

pub fresh-nodup : (seen xs : List String) → fresh seen xs ≡ (nodup xs && disjoint seen xs)
fresh-nodup seen [] = refl
fresh-nodup seen (x ∷ xs) = ground (arith, fresh-nodup (x ∷ seen) xs, disjoint-cons x seen xs)

pub disjoint-nil : (xs : List String) → disjoint [] xs ≡ true
disjoint-nil [] = refl
disjoint-nil (x ∷ xs) = disjoint-nil xs

-- `contracts` collects the accepted documents, in the order of the files.
pub scan_files-contracts :
    (files : List (String × FileRead)) (s : Scan)
    → (scan_files files s).contracts ≡ s.contracts ++ documents files
unfolding scan_files scan_file add_contract
scan_files-contracts [] s = sym (append-nil s.contracts)
scan_files-contracts ((path, unreadable x) ∷ rest) s = scan_files-contracts rest _
scan_files-contracts ((path, not_mapping) ∷ rest) s = scan_files-contracts rest _
scan_files-contracts ((path, mapping (e ∷ es) c) ∷ rest) s = scan_files-contracts rest _
scan_files-contracts ((path, mapping [] c) ∷ rest) s = ground (
  arith,
  scan_files-contracts rest (add_contract path c s),
  append_assoc s.contracts (c ∷ []) (documents rest),
)

abbrev pub AcceptedIds : List (String × FileRead) → Scan → Type 0
AcceptedIds files s =
    (s.issues ≡ [])
    × (all (λ (f : String × FileRead). accepted f.1) files ≡ true)
    × (fresh (keys s.identifiers) (ids (documents files)) ≡ true)

schema_issues-nil :
    (path : String) (es : List SchemaError) → schema_issues path es ≡ [] → length es ≡ 0
unfolding schema_issues
schema_issues-nil path [] h = refl
schema_issues-nil path (e ∷ es) h = absurd (cc h)

concat-ne-nil : {A : Type 0} (xs : List A) (x : A) → xs ++ x ∷ [] ≢ []
concat-ne-nil [] x h = cc h
concat-ne-nil (y ∷ ys) x h = cc h

-- a rejected document leaves an issue
schema_rejects :
    (path : String) (before : List ContractIssue) (e : SchemaError) (es : List SchemaError)
    (leq : SchemaError → SchemaError → Bool)
    → before ++ schema_issues path (sort_by leq (e ∷ es)) ≢ []
schema_rejects path before e es leq h =
    let found = schema_issues-nil path _ ((append-eq-nil before _).0 h).1 in
    absurd (omega (arith, length-sort_by leq (e ∷ es)))

keys_after_insert :
    (c : Contract) (path : String) (s : Scan) (rest : List String)
    → fresh (keys (insert c.id path s.identifiers)) rest ≡ fresh (c.id ∷ keys s.identifiers) rest
keys_after_insert c path s rest =
    fresh_congr (keys (insert c.id path s.identifiers)) (c.id ∷ keys s.identifiers) rest
      (λ x. ground (arith, elem-keys-insert c.id x path s.identifiers))

pub scan_files-nil :
    (files : List (String × FileRead)) (s : Scan)
    → ((scan_files files s).issues ≡ []) ↔ AcceptedIds files s
unfolding scan_files scan_file add_contract
scan_files-nil [] s = (λ h. (h, refl, refl), λ h. h.0)
scan_files-nil ((path, unreadable x) ∷ rest) s =
    let ih = scan_files-nil rest (scan_file path (unreadable x) s) in
    (λ h. absurd (concat-ne-nil s.issues _ (ih.0 h).0), λ h. absurd (cc (h.1)))
scan_files-nil ((path, not_mapping) ∷ rest) s =
    let ih = scan_files-nil rest (scan_file path not_mapping s) in
    (λ h. absurd (concat-ne-nil s.issues _ (ih.0 h).0), λ h. absurd (cc (h.1)))
scan_files-nil ((path, mapping (e ∷ es) c) ∷ rest) s =
    let ih = scan_files-nil rest (scan_file path (mapping (e ∷ es) c) s) in
    (λ h. absurd (schema_rejects path s.issues e es _ (ih.0 h).0), λ h. absurd (cc (h.1)))
scan_files-nil ((path, mapping [] c) ∷ rest) s =
    let ih = scan_files-nil rest (add_contract path c s) in
    elim (Option-cases (lookup c.id s.identifiers)) [
      | inl new ↦ ground (
        arith,
        ih,
        lookup-none_iff c.id s.identifiers,
        keys_after_insert c path s (ids (documents rest)),
      )
      | inr (first, old) ↦ (
        λ h. absurd (duplicate first old (ih.0 h).0),
        λ h. absurd (ground (arith, lookup-none_iff c.id s.identifiers)),
      )
    ]
  where
    duplicate :
        (first : String)
        → lookup c.id s.identifiers ≡ some first
        → (add_contract path c s).issues ≢ []
    duplicate first old h = concat-ne-nil s.issues _ (rw (old, add_contract) at h)
