-- ===== src/Contracts/Validate.antt =====
-- `_validate_contracts_uncached` of src/osbench/contracts.py: what is wrong with a corpus.
pub mod Corpus
mod Links
mod Scanned
pub mod Sound
use os_bench.Common.{
  ℕ, String, Bool, true, false, not, ◌&&◌, ◌||◌, Option, none, some, List, [], ◌∷◌, ◌++◌, map, ltb,
  leb, ◌==◌, if◌then◌else◌, elem, Dict, lookup, insert, length,
}
use os_bench.Common.Sort.{sort_by}
use os_bench.Common.Text.{concat, join, text_leb}
use os_bench.Contracts.Model.{Contract}
use os_bench.Contracts.Cycles.{cycle_nodes}

pub record ContractIssue : Type 0 where
  pub path : String
  pub message : String

pub record ContractReport : Type 0 where
  pub contracts : List Contract
  pub issues : List ContractIssue

-- `report.valid`: `not self.issues`
abbrev pub valid : ContractReport → Bool
valid report = elim report.issues [ [] ↦ true | _ ∷ _ ↦ false ]

-- A step of an error's `path`: a key of a mapping or an index of a sequence, with its `str`.
pub data PathItem : Type 0 where
  field : String → PathItem
  index : ℕ → String → PathItem

pub record SchemaError : Type 0 where
  pub path : List PathItem
  pub message : String

-- Lists of path items compare lexicographically. Two errors of one document do not hold a key and
-- an index at the same place, where Python would raise.
path_leb : List PathItem → List PathItem → Bool
path_leb [] q = true
path_leb (x ∷ p) [] = false
path_leb (field s ∷ p) (field t ∷ q) = if s == t then path_leb p q else text_leb s t
path_leb (index m s ∷ p) (index n t ∷ q) = if ltb m n then true else leb m n && path_leb p q
path_leb (field s ∷ p) (index n t ∷ q) = false
path_leb (index m s ∷ p) (field t ∷ q) = true

item_text : PathItem → String
item_text (field s) = s
item_text (index n s) = s

-- `".".join(str(item) for item in error.path) or "<root>"`
location : List PathItem → String
location [] = "<root>"
location (x ∷ p) = join "." (map item_text (x ∷ p))

-- What reading one file gives: the text of an exception, a document that is no mapping, or a
-- mapping with the errors that the schema validator yields and the fields that the program reads.
pub data FileRead : Type 0 where
  unreadable : String → FileRead
  not_mapping : FileRead
  mapping : List SchemaError → Contract → FileRead

abbrev pub issue : String → List String → ContractIssue
issue path parts = record { path = path; message = concat parts }

pub record Scan : Type 0 where
  pub issues : List ContractIssue
  pub contracts : List Contract
  pub identifiers : Dict String

schema_issues : String → List SchemaError → List ContractIssue
schema_issues path [] = []
schema_issues path (e ∷ es) =
    issue path ("schema " ∷ location e.path ∷ ": " ∷ e.message ∷ []) ∷ schema_issues path es

-- `if identifier in identifiers: … else: …`, then `contracts.append(value)`
unfoldable pub add_contract : String → Contract → Scan → Scan
add_contract path c s = elim (lookup c.id s.identifiers) [
  | some first ↦ record {
    issues =
        s.issues ++ issue path ("duplicate id " ∷ c.id ∷ "; first declared in " ∷ first ∷ []) ∷ [];
    contracts = s.contracts ++ c ∷ [];
    identifiers = s.identifiers;
  }
  | none ↦ record {
    issues = s.issues;
    contracts = s.contracts ++ c ∷ [];
    identifiers = insert c.id path s.identifiers;
  }
]

-- one round of `for path in contract_files(root)`
unfoldable pub scan_file : String → FileRead → Scan → Scan
unfolding schema_issues location item_text path_leb
scan_file path (unreadable exc) s = record s {
  issues = s.issues ++ issue path ("YAML parse failure: " ∷ exc ∷ []) ∷ [];
}
scan_file path not_mapping s = record s {
  issues = s.issues ++ issue path ("Contract document is not a mapping" ∷ []) ∷ [];
}
scan_file path (mapping [] c) s = add_contract path c s
scan_file path (mapping (e ∷ es) c) s = record s {
  issues =
      s.issues
      ++ schema_issues path (sort_by (λ (x y : SchemaError). path_leb x.path y.path) (e ∷ es));
}

unfoldable pub scan_files : List (String × FileRead) → Scan → Scan
scan_files [] s = s
scan_files ((path, file) ∷ rest) s = scan_files rest (scan_file path file s)

-- `if bad: issues.append(…)`
abbrev pub issue_if : Bool → String → List String → List ContractIssue
issue_if bad path parts = if bad then issue path parts ∷ [] else []

unfoldable pub prerequisite_issues : List String → String → List String → List ContractIssue
prerequisite_issues known identifier [] = []
prerequisite_issues known identifier (d ∷ ds) =
    (issue_if (not (elem d known)) identifier ("unknown prerequisite: " ∷ d ∷ [])
      ++ issue_if (d == identifier) identifier ("Contract cannot depend on itself" ∷ []))
    ++ prerequisite_issues known identifier ds

unfoldable pub orthogonal_issues : List String → String → List String → List ContractIssue
orthogonal_issues known identifier [] = []
orthogonal_issues known identifier (other ∷ rest) =
    (issue_if (not (elem other known)) identifier ("unknown orthogonal Contract: " ∷ other ∷ [])
      ++ issue_if (other == identifier) identifier
          ("Contract cannot be orthogonal with itself" ∷ []))
    ++ orthogonal_issues known identifier rest

-- one round of the second loop
unfoldable pub contract_issues : List String → Contract → List ContractIssue
contract_issues known c =
    prerequisite_issues known c.id c.prerequisites
    ++ (orthogonal_issues known c.id c.orthogonal_with
        ++ issue_if (elem "none" c.normalization && ltb 1 (length c.normalization)) c.id
            ("normalization 'none' cannot be combined" ∷ []))

unfoldable pub link_issues : List String → List Contract → List ContractIssue
link_issues known [] = []
link_issues known (c ∷ cs) = contract_issues known c ++ link_issues known cs

abbrev pub ids : List Contract → List String
ids [] = []
ids (c ∷ cs) = c.id ∷ ids cs

-- `if not issues: cycle = …`
unfoldable pub cycle_issues : List ContractIssue → List Contract → List ContractIssue
cycle_issues [] contracts = elim (cycle_nodes contracts) [
  | [] ↦ []
  | node ∷ rest ↦ issue "capability_graph" ("cycle: " ∷ join " -> " (node ∷ rest) ∷ []) ∷ []
]
cycle_issues (i ∷ issues) contracts = i ∷ issues

abbrev pub empty_scan : Scan
empty_scan = record { issues = []; contracts = []; identifiers = [] }

unfoldable pub validate_contracts : List (String × FileRead) → ContractReport
unfolding scan_files link_issues cycle_issues
validate_contracts files =
    let s = scan_files files empty_scan in
    record {
      contracts = s.contracts;
      issues = cycle_issues (s.issues ++ link_issues (ids s.contracts) s.contracts) s.contracts;
    }
