-- ===== src/Ledger/Account.antt =====
-- api/src/magi-backend.ts: `accountOps`, an account's recent calls and moves, and `txStatus`. What the
-- node answers, and how the browser compares two times, are parameters.
pub mod Sources
pub mod Found
pub mod Plain
pub mod Complete
pub mod Listed
mod Tests
use lasse_cash_migration_to.Prelude.{
  get_elem?, is_empty, without_prefix, length-take-le, ◌∷◌, ◌++◌, [], ℕ, zero, suc, ◌+◌, ◌-◌, ◌*◌,
  ◌/◌, ◌%◌, ◌^◌, ◌≤◌, ◌<◌, ◌≡◌, refl, sym, ap, ◌∙◌, subst, ◌↔◌, ◌⊎◌, inl, inr, Bool, true, false,
  not, ◌&&◌, ◌||◌, Option, none, some, List, map, reverse, arith, ltb, leb, ◌==◌, if◌then◌else◌,
  Bool-cases, Result, ok, err, ◌>>=◌, length, take, drop, filter, find?, all, any, last?, All, ℤ,
  pos, negsuc, neg_ℕ, nat_abs, ltb_ℤ, eqb_ℤ, is_neg, ◌+ℤ◌, ◌-ℤ◌, ◌*ℤ◌, ◌≤ℤ◌, quot, Text, codes,
  text_eq, is_digit, trim, split, starts_with, pad_start, replicate, is_space, Option-cases,
  int_laws,
}
use lasse_cash_migration_to.Prelude.Keys.{first_of_each, sort_onto}
use lasse_cash_migration_to.Activity.{AccountOp, Status}
use lasse_cash_migration_to.Ledger.Transactions.{
  ChainOp, ChainTx, text_or, is_call, is_confirmed, is_failed, signer_of, action_of,
}
use lasse_cash_migration_to.Ledger.Outputs.{
  OpResult, Output, Results, results_by_op, result_for, op_result,
}

-- `qualified`
unfoldable pub qualified : Text → Text
qualified author =
    let a = without_prefix (codes "@") author in
    if any (λ c. c == b':') a then a else codes "hive:" ++ a

-- `PAYS`
abbrev pub pays : List Text
pays =
    codes "claim_mint"
    ∷ codes "claim_pool"
    ∷ codes "claim_curation"
    ∷ codes "claim_migration"
    ∷ codes "remove_liquidity"
    ∷ codes "swap_lassecash_hbd"
    ∷ codes "swap_hbd_lassecash"
    ∷ codes "swap_lc_hbd"
    ∷ codes "swap_hbd_lc"
    ∷ codes "payout"
    ∷ codes "sweep_mint"
    ∷ codes "sweep_tranche"
    ∷ codes "execute"
    ∷ []

abbrev pub pays_out : ChainOp → Bool
pays_out op = is_call op && any (text_eq (text_or [] op.action)) pays

-- A transaction whose outputs are fetched.
abbrev pub is_wanted : ChainTx → Bool
is_wanted tx = is_confirmed tx && any pays_out tx.ops

-- What the node holds of a transaction's outputs: those of the contract, and those of the router.
pub record Fetched : Type 0 where
  pub own : List Output
  pub router : List Output

-- The return value of the router's first result, where there is one and it is not empty.
abbrev first_ret : List OpResult → Option Text
first_ret [] = none
first_ret (r ∷ rs) = if r.ok && not (is_empty r.ret) then some r.ret else none

abbrev pub router_ret : List Output → Option Text
router_ret [] = none
router_ret (o ∷ outputs) = elim (router_ret outputs) [
  | some ret ↦ some ret
  | none ↦ first_ret (map op_result o.results)
]

abbrev pub status_of : ChainTx → Status
status_of tx =
    if is_confirmed tx
    then Status.confirmed
    else if is_failed tx
    then Status.failed
    else Status.pending

abbrev pub paid_ret : Option OpResult → Option Text
paid_ret none = none
paid_ret (some r) = if r.ok && not (is_empty r.ret) then some r.ret else none

abbrev pub either {ℓ} : {A : Type ℓ} → Option A → Option A → Option A
either none y = y
either (some x) y = some x

-- What came back of a call: the router's answer to a swap, or its own result.
abbrev pub ret_of : Fetched → ChainTx → Text → ℕ → ℕ → Option Text
ret_of fetched tx action op_index call_index =
    if not (is_wanted tx)
    then none
    else let own =
        paid_ret (result_for (results_by_op (λ id. none) fetched.own) tx.id op_index call_index) in
      if text_eq action (codes "execute") then either (router_ret fetched.router) own else own

abbrev nonempty : Option Text → Option Text
nonempty none = none
nonempty (some s) = if is_empty s then none else some s

abbrev pub call_row : ChainTx → ChainOp → Text → Option Text → AccountOp
call_row tx op action ret = record {
  id = tx.id;
  time = tx.anchr_ts;
  action = action;
  payload = text_or [] op.payload;
  status = status_of tx;
  ret = ret;
  contract = nonempty op.contract_id;
}

abbrev pub called : ChainOp → Option Text
called op = if is_call op then action_of op else none

abbrev pub is_there {ℓ} : {A : Type ℓ} → Option A → Bool
is_there none = false
is_there (some a) = true

abbrev pub add_call :
    Fetched → ChainTx → ChainOp → ℕ → ℕ → Option Text → List AccountOp → List AccountOp
add_call fetched tx op op_index call_index none rest = rest
add_call fetched tx op op_index call_index (some action) rest =
    call_row tx op action (ret_of fetched tx action op_index call_index) ∷ rest

-- The calls of one transaction; a call without an action is not counted here.
abbrev pub calls_of_tx : Fetched → ChainTx → ℕ → ℕ → List ChainOp → List AccountOp
calls_of_tx fetched tx op_index call_index [] = []
calls_of_tx fetched tx op_index call_index (op ∷ ops) =
    let rest =
      calls_of_tx fetched tx (suc op_index)
        (if is_there (called op) then suc call_index else call_index) ops in
    add_call fetched tx op op_index call_index (called op) rest

abbrev pub own_calls : (ChainTx → Fetched) → List ChainTx → List AccountOp
own_calls fetch [] = []
own_calls fetch (tx ∷ txs) = calls_of_tx (fetch tx) tx 0 0 tx.ops ++ own_calls fetch txs

-- A transfer to the account in the contract's recent calls, with its sender; not one that the account
-- signed itself.
abbrev pub is_incoming : Text → List AccountOp → ChainTx → ChainOp → Bool
is_incoming me out tx op =
    is_call op
    && text_eq (text_or [] op.action) (codes "transfer")
    && starts_with (me ++ b'|' ∷ []) (text_or [] op.payload)
    && not (any (λ o. text_eq o.id tx.id) out)

abbrev pub incoming_row : ChainTx → ChainOp → AccountOp
incoming_row tx op = record {
  id = tx.id;
  time = tx.anchr_ts;
  action = codes "+transfer";
  payload = text_or [] op.payload ++ b'|' ∷ signer_of tx;
  status = Status.confirmed;
  ret = none;
  contract = none;
}

abbrev pub add_incoming_ops : Text → ChainTx → List ChainOp → List AccountOp → List AccountOp
add_incoming_ops me tx [] out = out
add_incoming_ops me tx (op ∷ ops) out =
    add_incoming_ops me tx ops
      (if is_incoming me out tx op then out ++ incoming_row tx op ∷ [] else out)

abbrev pub add_incoming : Text → List ChainTx → List AccountOp → List AccountOp
add_incoming me [] out = out
add_incoming me (tx ∷ txs) out =
    add_incoming me txs (if is_confirmed tx then add_incoming_ops me tx tx.ops out else out)

-- Moves of HBD and HIVE.
abbrev pub move_row : Text → ChainTx → ChainOp → AccountOp
move_row me tx op = record {
  id = tx.id;
  time = tx.anchr_ts;
  action = if text_eq (text_or [] op.to) me then codes "+ledger" else codes "ledger";
  payload =
      text_or [] op.from
      ++ b'|' ∷ text_or [] op.to
      ++ b'|' ∷ text_or [] op.amount
      ++ b'|' ∷ text_or [] op.asset;
  status = status_of tx;
  ret = none;
  contract = none;
}

abbrev pub moves_of : Text → List ChainTx → List AccountOp
moves_of me [] = []
moves_of me (tx ∷ txs) =
    map (move_row me tx) (filter (λ op. text_eq op.type (codes "transfer")) tx.ops)
    ++ moves_of me txs

abbrev pub incoming_of : Option (List ChainTx) → List ChainTx
incoming_of none = []
incoming_of (some txs) = txs

abbrev status_name : Status → Text
status_name Status.confirmed = codes "confirmed"
status_name Status.failed = codes "failed"
status_name Status.pending = codes "pending"

-- The key by which rows are told apart.
abbrev pub row_key : AccountOp → Text
row_key o = o.id ++ b':' ∷ o.action ++ b':' ∷ o.payload

-- All rows, in the order in which they are found.
abbrev pub all_rows :
    Text → (ChainTx → Fetched) → List ChainTx → Option (List ChainTx) → List AccountOp
all_rows me fetch txs incoming =
    add_incoming me (incoming_of incoming) (own_calls fetch txs) ++ moves_of me txs

-- `accountOps`: the transactions of the account, the contract's recent ones where that query is answered,
-- and which time is later.
unfoldable pub account_ops :
    (Text → Text → Bool)
    → (ChainTx → Fetched)
    → Text
    → List ChainTx
    → Option (List ChainTx)
    → ℕ
    → List AccountOp
account_ops later fetch account txs incoming limit = take limit (
    sort_onto row_key (λ a b. later a.time b.time) []
      (first_of_each row_key [] (all_rows (qualified account) fetch txs incoming)))

-- `txStatus`: the verdict on a transaction, and the error of a failed one. The output's page is read
-- where there is one; `none` where that fails.
pub data TxStatus : Type 0 where
  unknown : TxStatus
  accepted : TxStatus
  waiting : TxStatus
  refused : Option Text → TxStatus

pub record DagResult : Type 0 where
  pub err_msg : Option Text
  pub err : Option Text

abbrev pub error_of : Option (List DagResult) → Option Text
error_of none = none
error_of (some []) = none
error_of (some (r ∷ rs)) = either (nonempty r.err_msg) (nonempty r.err)

unfoldable pub tx_status : Option Text → Option (List DagResult) → TxStatus
tx_status none dag = unknown
tx_status (some status) dag =
    if text_eq status (codes "CONFIRMED")
    then accepted
    else if not (text_eq status (codes "FAILED"))
    then waiting
    else refused (error_of dag)
