-- ===== src/Graph/Outputs/Matrix.antt =====
-- The workload matrix repeats the closure that `contracts_for_workload` computes.
use os_bench.Common.{
  String, ◌≡◌, refl, sym, Option-cases, nodup, true, List, [], ◌∷◌, elem, Dict, keys, lookup,
  Bool-cases, inl, inr, ap, ◌∙◌, Option, none, some, ◌==◌,
}
use os_bench.Common.Result.{Result, ok, err, key_error, ◌>>=◌, >>=-eq-ok}
use os_bench.Common.Items.{sorted_items, lookup-sorted_items}
use os_bench.Common.Sort.{sorted}
use os_bench.Contracts.Model.{Contract}
use os_bench.Graph.Adjacency.{neighbors, adjacency_of}
use os_bench.Graph.Closure.{closure}
use os_bench.Graph.Queries.{
  WorkloadItem, mapping, other, update, close_over, query, prerequisites, contracts_for_workload,
}
use os_bench.Graph.Outputs.{MatrixRow, matrix_closure, matrix_rows, workload_matrix}

-- Where the matrix is built, no identifier is unknown, and the two loops agree.
matrix_closure-close_over :
    (contracts : Dict Contract) (name : String) (closed direct out : List String)
    → matrix_closure contracts (adjacency_of true contracts) name closed direct ≡ ok out
    → close_over contracts closed direct ≡ ok out
unfolding matrix_closure close_over prerequisites query
matrix_closure-close_over contracts name closed [] out h = h
matrix_closure-close_over contracts name closed (i ∷ rest) out h =
    let reverse = adjacency_of true contracts in
    elim (Bool-cases (elem i (keys contracts))) [
      | inl there ↦ rw there (
          matrix_closure-close_over contracts name
            (update closed (closure (neighbors reverse i) reverse)) rest out (rw there at h))
      | inr missing ↦ absurd (cc (rw missing at h))
    ]

closure_of : Dict Contract → Option WorkloadItem → String → Result (List String)
closure_of contracts none name = err (key_error name)
closure_of contracts (some other) name = err (key_error name)
closure_of contracts (some (mapping direct)) name =
    close_over contracts (update [] direct) direct >>= λ closed. ok (sorted closed)

matrix_rows-closure_of :
    (contracts : Dict Contract) (items : List (String × WorkloadItem)) (rows : Dict MatrixRow)
    (name : String) (row : MatrixRow)
    → matrix_rows contracts (adjacency_of true contracts) items ≡ ok rows
    → lookup name rows ≡ some row
    → closure_of contracts (lookup name items) name ≡ ok row.contract_closure
unfolding matrix_rows closure_of
matrix_rows-closure_of contracts [] rows name row h m =
    let e : rows ≡ [] = cc in absurd (cc (rw e at m))
matrix_rows-closure_of contracts ((key, other) ∷ rest) rows name row h m = absurd (cc h)
matrix_rows-closure_of contracts ((key, mapping direct) ∷ rest) rows name row h m =
    let reverse = adjacency_of true contracts in
    let (closed, found, h') =
      >>=-eq-ok (matrix_closure contracts reverse key (update [] direct) direct) _ h in
    let (others, built, h'') = >>=-eq-ok (matrix_rows contracts reverse rest) _ h' in
    let e : rows ≡ (key, record { contracts = direct; contract_closure = sorted closed }) ∷ others =
      cc in
    elim (Bool-cases (name == key)) [
      | inl same ↦
          let agree =
            matrix_closure-close_over contracts key (update [] direct) direct closed found in
          let last : row.contract_closure ≡ sorted closed = cc (rw (e, same) at m) in
          rw (same, agree, last) refl
      | inr different ↦
          let m' : lookup name others ≡ some row = rw (e, different) at m in
          rw different (matrix_rows-closure_of contracts rest others name row built m')
    ]

contracts_for_workload-closure_of :
    (contracts : Dict Contract) (workloads : Dict WorkloadItem) (name : String)
    → contracts_for_workload contracts workloads name
      ≡ closure_of contracts (lookup name workloads) name
unfolding contracts_for_workload closure_of
contracts_for_workload-closure_of contracts workloads name =
    elim (Option-cases (lookup name workloads)) [
      | inl e ↦ rw (e, contracts_for_workload) refl
      | inr (other, e) ↦ rw (e, contracts_for_workload) refl
      | inr (mapping direct, e) ↦ rw (e, contracts_for_workload) refl
    ]

-- When the matrix is built, the row of every workload has the closure that
-- `contracts_for_workload` returns, provided that the workload names are distinct.
pub workload_matrix-contracts_for_workload :
    (contracts : Dict Contract) (workloads : Dict WorkloadItem) (rows : Dict MatrixRow)
    → nodup (keys workloads) ≡ true
    → workload_matrix contracts workloads ≡ ok rows
    → (name : String) (row : MatrixRow) → lookup name rows ≡ some row
    → contracts_for_workload contracts workloads name ≡ ok row.contract_closure
unfolding workload_matrix
workload_matrix-contracts_for_workload contracts workloads rows distinct h name row m =
    contracts_for_workload-closure_of contracts workloads name
    ∙ ap (λ item. closure_of contracts item name)
        (sym (lookup-sorted_items name workloads distinct))
    ∙ matrix_rows-closure_of contracts (sorted_items workloads) rows name row h m
