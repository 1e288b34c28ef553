-- ===== src/Ledger/Calls/Joined.antt =====
-- The pool's ledger against the pool's calls, in api/src/magi-backend.ts.
use mathlib.Core.List.{reverse_aux}
use lasse_cash_migration_to.Prelude.{
  ◌∷◌, ◌++◌, [], ℕ, suc, ◌≡◌, refl, ap, ◌∙◌, inl, inr, Option, none, some, List, map, reverse,
  if◌then◌else◌, Bool-cases, Text,
}
use lasse_cash_migration_to.Market.Entry.{PoolLedgerEntry}
use lasse_cash_migration_to.Ledger.Transactions.{ChainOp, ChainTx, is_call, is_confirmed}
use lasse_cash_migration_to.Ledger.Outputs.{Output, Results, results_by_op}
use lasse_cash_migration_to.Ledger.Paging.{all_batches}
use lasse_cash_migration_to.Ledger.Paging.Batches.{all_batches-all_pages}
use lasse_cash_migration_to.Ledger.Calls.{
  PoolOp, pool_op, pool_actions, wanted_call, add_row, ops_of_tx, ops_of, pool_ops, call_count,
  ledger_of, entries_of_tx, entries_of, call_ledger_walk, pool_ledger, walk_outputs, oldest_height,
  max_pages,
}

-- The call of an entry, without what it settled.
abbrev pub call_of : PoolLedgerEntry → PoolOp
call_of e = record {
  time = e.time;
  height = e.height;
  action = e.action;
  payload = e.payload;
  signer = e.signer;
}

map-add_row {ℓ κ} :
    {A : Type ℓ} {B : Type κ} (f : A → B) (row : Text → A) (action : Option Text) (rest : List A)
    → map f (add_row row action rest) ≡ add_row (λ a. f (row a)) action (map f rest)
map-add_row f row none rest = refl
map-add_row f row (some action) rest = refl

map-append {ℓ κ} :
    {A : Type ℓ} {B : Type κ} (f : A → B) (xs ys : List A) → map f (xs ++ ys) ≡ map f xs ++ map f ys
map-append f [] ys = refl
map-append f (x ∷ xs) ys = ap (λ l. f x ∷ l) (map-append f xs ys)

entries_of_tx-ops :
    (results : Results) (tx : ChainTx) (op_index call_index : ℕ) (ops : List ChainOp)
    → map call_of (entries_of_tx pool_actions results tx op_index call_index ops) ≡ ops_of_tx tx ops
entries_of_tx-ops results tx op_index call_index [] = refl
entries_of_tx-ops results tx op_index call_index (op ∷ ops) =
    let later = if is_call op then suc call_index else call_index in
    map-add_row call_of _ (wanted_call pool_actions op)
      (entries_of_tx pool_actions results tx (suc op_index) later ops)
    ∙ ap (λ rest. add_row (pool_op tx op) (wanted_call pool_actions op) rest)
        (entries_of_tx-ops results tx (suc op_index) later ops)

entries_of-ops :
    (results : Results) (txs : List ChainTx)
    → map call_of (entries_of pool_actions results txs) ≡ ops_of txs
entries_of-ops results [] = refl
entries_of-ops results (tx ∷ txs) = elim (Bool-cases (is_confirmed tx)) [
  | inl confirmed ↦ rw confirmed (
      map-append call_of (entries_of_tx pool_actions results tx 0 0 tx.ops)
        (entries_of pool_actions results txs)
      ∙ ap (λ l. l ++ map call_of (entries_of pool_actions results txs))
          (entries_of_tx-ops results tx 0 0 tx.ops)
      ∙ ap (λ l. ops_of_tx tx tx.ops ++ l) (entries_of-ops results txs))
  | inr other ↦ rw other (entries_of-ops results txs)
]

map-reverse_aux {ℓ κ} :
    {A : Type ℓ} {B : Type κ} (f : A → B) (xs ys : List A)
    → map f (reverse_aux xs ys) ≡ reverse_aux (map f xs) (map f ys)
map-reverse_aux f [] ys = refl
map-reverse_aux f (x ∷ xs) ys = map-reverse_aux f xs (x ∷ ys)

ledger_of-ops :
    (outputs : ℕ → List Output) (limit : ℕ) (txs : List ChainTx)
    → map call_of (ledger_of outputs pool_actions limit txs) ≡ reverse (ops_of txs)
ledger_of-ops outputs limit [] = refl
ledger_of-ops outputs limit (tx ∷ txs) =
    let oldest = oldest_height tx.anchr_height txs in
    let results =
      results_by_op (call_count (tx ∷ txs)) (walk_outputs outputs oldest (max_pages limit) 0) in
    map-reverse_aux call_of (entries_of pool_actions results (tx ∷ txs)) []
    ∙ ap reverse (entries_of-ops results (tx ∷ txs))

-- Without what the calls settled, the pool's ledger, read four pages at a time and joined to the
-- outputs, is the list of the pool's calls, read one page after another: no call is lost, doubled or
-- moved, whatever the outputs are.
pub pool_ledger-pool_ops :
    (page : ℕ → List ChainTx) (outputs : ℕ → List Output) (limit : ℕ)
    → map call_of (pool_ledger page outputs limit) ≡ pool_ops page limit
unfolding call_ledger_walk pool_ops
pool_ledger-pool_ops page outputs limit =
    ledger_of-ops outputs limit (all_batches page limit)
    ∙ ap (λ txs. reverse (ops_of txs)) (all_batches-all_pages page limit)
