-- ===== src/Contracts/Validate/Sound.antt =====
-- The report is valid exactly for the sound corpora.
use os_bench.Common.{String, ◌≡◌, refl, ◌↔◌, inl, inr, true, List, [], ◌∷◌, ◌++◌, arith, List-cases}
use os_bench.Contracts.Model.{Contract}
use os_bench.Contracts.Cycles.{cycle_nodes}
use os_bench.Contracts.Validate.{
  ContractIssue, ContractReport, valid, FileRead, scan_files, link_issues, ids, cycle_issues,
  empty_scan, validate_contracts,
}
use os_bench.Contracts.Validate.Corpus.{documents, IsSound}
use os_bench.Contracts.Validate.Links.{append-eq-nil, link_issues-nil}
use os_bench.Contracts.Validate.Scanned.{
  scan_files-contracts, scan_files-nil, fresh-nodup, disjoint-nil,
}

cycle_issues-nil :
    (issues : List ContractIssue) (cs : List Contract)
    → (cycle_issues issues cs ≡ []) ↔ ((issues ≡ []) × (cycle_nodes cs ≡ []))
unfolding cycle_issues
cycle_issues-nil (i ∷ is) cs = (λ h. absurd (cc h), λ h. absurd (cc (h.0)))
cycle_issues-nil [] cs = ground arith

-- The report has no issue exactly if the corpus is sound: every file is accepted by the schema,
-- the ids are distinct, every prerequisite and every orthogonal Contract is another Contract of
-- the corpus, 'none' stands alone among the normalizations, and no prerequisite cycle is found.
pub validate_contracts-IsSound :
    (files : List (String × FileRead)) → ((validate_contracts files).issues ≡ []) ↔ IsSound files
unfolding validate_contracts
validate_contracts-IsSound files =
    let s = scan_files files empty_scan in
    let links = link_issues (ids s.contracts) s.contracts in
    let scanned = scan_files-nil files empty_scan in
    let cs = documents files in
    let collected : s.contracts ≡ cs = scan_files-contracts files empty_scan in
    let (clear, clear_back) = cycle_issues-nil (s.issues ++ links) s.contracts in
    let (parts, parts_back) = append-eq-nil s.issues links in
    let (linked_all, linked_back) = link_issues-nil (ids cs) cs in
    (
      λ h.
          let found = clear h in
          let first = parts found.0 in
          let read = scanned.0 first.0 in
          record {
            files_accepted = read.1;
            distinct_ids = ground (arith, fresh-nodup [] (ids cs));
            links = linked_all (rw collected at (first.1));
            acyclic = rw collected at (found.1);
          },
      λ sound. clear_back (
          (
            parts_back (
                (
                  scanned.1 (
                      (
                        refl,
                        sound.files_accepted,
                        ground (
                          arith,
                          fresh-nodup [] (ids cs),
                          disjoint-nil (ids cs),
                          sound.distinct_ids,
                        ),
                      )),
                  rw collected (linked_back sound.links),
                )),
            rw collected sound.acyclic,
          )),
    )

-- A valid report holds the documents of a sound corpus.
pub valid-IsSound :
    (files : List (String × FileRead))
    → valid (validate_contracts files) ≡ true
    → IsSound files × ((validate_contracts files).contracts ≡ documents files)
unfolding validate_contracts
valid-IsSound files h = (
  (validate_contracts-IsSound files).0 (no_issues (validate_contracts files) h),
  scan_files-contracts files empty_scan,
)
  where
    no_issues : (report : ContractReport) → valid report ≡ true → report.issues ≡ []
    no_issues report e = elim (List-cases report.issues) [
      | inl none_found ↦ none_found
      | inr (x, xs, e') ↦ absurd (cc (rw e' at e))
    ]
