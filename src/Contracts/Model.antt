-- ===== src/Contracts/Model.antt =====
-- A Contract document that has passed the JSON schema, as the fields that the program reads, and
-- the corpus as a dictionary (contracts_by_id of src/osbench/contracts.py).
use os_bench.Common.{String, List, [], ◌∷◌, Dict, insert}

-- An optional list field holds what `.get(field, [])` yields.
pub record Contract : Type 0 where
  pub id : String
  pub title : String
  pub level : String
  pub domain : String
  pub transport : String
  pub prerequisites : List String
  pub orthogonal_with : List String
  pub normalization : List String
  pub observables : List String
  pub workloads : List String
  pub equivalence : String

-- `{str(contract["id"]): contract for contract in items}`
unfoldable pub insert_all : List Contract → Dict Contract → Dict Contract
insert_all [] known = known
insert_all (c ∷ cs) known = insert_all cs (insert c.id c known)

unfoldable pub contracts_by_id : List Contract → Dict Contract
unfolding insert_all
contracts_by_id items = insert_all items []
