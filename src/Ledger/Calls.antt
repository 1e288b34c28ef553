-- ===== src/Ledger/Calls.antt =====
-- api/src/magi-backend.ts: `poolOps`, `#callLedgerWalk` and `payoutLedger`.
pub mod Joined
use lasse_cash_migration_to.Prelude.{
  get_elem?, is_empty, behind, min, ◌∷◌, ◌++◌, [], ℕ, zero, suc, ◌+◌, ◌-◌, ◌*◌, ◌/◌, ◌%◌, ◌^◌, ◌≤◌,
  ◌<◌, ◌≡◌, refl, sym, ap, ◌∙◌, subst, ◌↔◌, ◌⊎◌, inl, inr, Bool, true, false, not, ◌&&◌, ◌||◌,
  Option, none, some, List, map, reverse, arith, ltb, leb, ◌==◌, if◌then◌else◌, Bool-cases, Result,
  ok, err, ◌>>=◌, length, take, drop, filter, find?, all, any, last?, All, ℤ, pos, negsuc, neg_ℕ,
  nat_abs, ltb_ℤ, eqb_ℤ, is_neg, ◌+ℤ◌, ◌-ℤ◌, ◌*ℤ◌, ◌≤ℤ◌, quot, Text, codes, text_eq, is_digit, trim,
  split, starts_with, pad_start, replicate, is_space, Option-cases, int_laws,
}
use lasse_cash_migration_to.Market.Entry.{PoolLedgerEntry}
use lasse_cash_migration_to.Ledger.Transactions.{
  ChainOp, ChainTx, text_or, is_call, is_confirmed, signer_of, action_of,
}
use lasse_cash_migration_to.Ledger.Outputs.{OpResult, Output, Results, results_by_op, result_for}
use lasse_cash_migration_to.Ledger.Paging.{all_pages, all_batches, page_size}

-- `PoolOp`
pub record PoolOp : Type 0 where
  pub time : Text
  pub height : ℕ
  pub action : Text
  pub payload : Text
  pub signer : Text

abbrev pub pool_actions : List Text
pool_actions =
    codes "add_liquidity"
    ∷ codes "remove_liquidity"
    ∷ codes "swap_lassecash_hbd"
    ∷ codes "swap_hbd_lassecash"
    ∷ codes "swap_lc_hbd"
    ∷ codes "swap_hbd_lc"
    ∷ []

-- The action of a call, where it is there and wanted.
abbrev pub is_wanted : List Text → Option Text → Option Text
is_wanted wanted none = none
is_wanted wanted (some action) = if any (text_eq action) wanted then some action else none

abbrev pub wanted_call : List Text → ChainOp → Option Text
wanted_call wanted op = if is_call op then is_wanted wanted (action_of op) else none

-- A row for it, in front of the others.
abbrev pub add_row {ℓ} : {A : Type ℓ} → (Text → A) → Option Text → List A → List A
add_row row none rest = rest
add_row row (some action) rest = row action ∷ rest

abbrev pub pool_op : ChainTx → ChainOp → Text → PoolOp
pool_op tx op action = record {
  time = tx.anchr_ts;
  height = tx.anchr_height;
  action = action;
  payload = text_or [] op.payload;
  signer = signer_of tx;
}

abbrev pub ops_of_tx : ChainTx → List ChainOp → List PoolOp
ops_of_tx tx [] = []
ops_of_tx tx (op ∷ ops) =
    let rest = ops_of_tx tx ops in add_row (pool_op tx op) (wanted_call pool_actions op) rest

abbrev pub ops_of : List ChainTx → List PoolOp
ops_of [] = []
ops_of (tx ∷ txs) =
    let rest = ops_of txs in if is_confirmed tx then ops_of_tx tx tx.ops ++ rest else rest

-- `poolOps`
unfoldable pub pool_ops : (ℕ → List ChainTx) → ℕ → List PoolOp
pool_ops page limit = reverse (ops_of (all_pages page limit))

-- The number of calls of each transaction that was read; the last one of an id counts.
abbrev pub call_count : List ChainTx → Text → Option ℕ
call_count [] id = none
call_count (tx ∷ txs) id = elim (call_count txs id) [
  | some n ↦ some n
  | none ↦ if text_eq id tx.id then some (length (filter is_call tx.ops)) else none
]

abbrev pub oldest_height : ℕ → List ChainTx → ℕ
oldest_height h [] = h
oldest_height h (tx ∷ txs) = oldest_height (min h tx.anchr_height) txs

-- The pages of outputs: up to one that is not full or reaches below the oldest transaction, and no more
-- than `maxPages`; those of a batch behind it are left, so that four at a time read the same.
unfoldable pub walk_outputs : (ℕ → List Output) → ℕ → ℕ → ℕ → List Output
walk_outputs page oldest zero offset = []
walk_outputs page oldest (suc pages) offset =
    let rest = walk_outputs page oldest pages (offset + page_size) in
    if ltb (length (page offset)) page_size || any (λ o. ltb o.block_height oldest) (page offset)
    then page offset
    else page offset ++ rest

abbrev pub result_ok : Option OpResult → Bool
result_ok none = false
result_ok (some r) = r.ok

abbrev pub result_ret : Option OpResult → Text
result_ret none = []
result_ret (some r) = r.ret

abbrev pub ledger_entry : ChainTx → ChainOp → Text → Option OpResult → PoolLedgerEntry
ledger_entry tx op action r = record {
  time = tx.anchr_ts;
  height = tx.anchr_height;
  action = action;
  payload = text_or [] op.payload;
  signer = signer_of tx;
  tx_id = tx.id;
  ok = result_ok r;
  ret = result_ret r;
}

-- The wanted calls of a transaction, joined to their results by the operation's and the call's place.
abbrev pub entries_of_tx :
    List Text → Results → ChainTx → ℕ → ℕ → List ChainOp → List PoolLedgerEntry
entries_of_tx wanted results tx op_index call_index [] = []
entries_of_tx wanted results tx op_index call_index (op ∷ ops) =
    let rest =
      entries_of_tx wanted results tx (suc op_index)
        (if is_call op then suc call_index else call_index) ops in
    add_row (λ action. ledger_entry tx op action (result_for results tx.id op_index call_index))
      (wanted_call wanted op) rest

abbrev pub entries_of : List Text → Results → List ChainTx → List PoolLedgerEntry
entries_of wanted results [] = []
entries_of wanted results (tx ∷ txs) =
    let rest = entries_of wanted results txs in
    if is_confirmed tx then entries_of_tx wanted results tx 0 0 tx.ops ++ rest else rest

abbrev pub max_pages : ℕ → ℕ
max_pages limit = (limit + 99) / page_size + 2

-- The join of the transactions that were read, the newest first, with the outputs.
abbrev pub ledger_of : (ℕ → List Output) → List Text → ℕ → List ChainTx → List PoolLedgerEntry
ledger_of outputs wanted limit [] = []
ledger_of outputs wanted limit (tx ∷ txs) =
    let oldest = oldest_height tx.anchr_height txs in
    let found = walk_outputs outputs oldest (max_pages limit) 0 in
    reverse (entries_of wanted (results_by_op (call_count (tx ∷ txs)) found) (tx ∷ txs))

-- `#callLedgerWalk`
unfoldable pub call_ledger_walk :
    (ℕ → List ChainTx) → (ℕ → List Output) → List Text → ℕ → List PoolLedgerEntry
call_ledger_walk page outputs wanted limit = ledger_of outputs wanted limit (all_batches page limit)

-- `poolLedger`
abbrev pub pool_ledger : (ℕ → List ChainTx) → (ℕ → List Output) → ℕ → List PoolLedgerEntry
pool_ledger page outputs limit = call_ledger_walk page outputs pool_actions limit

-- What `payout` paid: `/paid author\s+(\d+)/`, at its first place.
abbrev span_digits : Text → Text
span_digits [] = []
span_digits (c ∷ s) = let rest = span_digits s in if is_digit c then c ∷ rest else []

abbrev skip_space : Text → Text
skip_space [] = []
skip_space (c ∷ s) = if is_space c then skip_space s else c ∷ s

abbrev spaced_digits : Text → Option Text
spaced_digits [] = none
spaced_digits (c ∷ s) =
    let digits = span_digits (skip_space s) in
    if is_space c && not (is_empty digits) then some digits else none

abbrev digits_behind : Option Text → Option Text
digits_behind none = none
digits_behind (some s) = spaced_digits s

unfoldable pub paid_author : Text → Option Text
paid_author [] = none
paid_author (c ∷ s) = elim (digits_behind (behind (codes "paid author") (c ∷ s))) [
  | some digits ↦ some digits
  | none ↦ paid_author s
]

pub record Paid : Type 0 where
  pub units : Text
  pub height : ℕ
  pub tx_id : Text

abbrev pub set_paid : Text → Paid → List (Text × Paid) → List (Text × Paid)
set_paid key paid [] = (key, paid) ∷ []
set_paid key paid ((k, p) ∷ ps) =
    let rest = set_paid key paid ps in if text_eq key k then (k, paid) ∷ ps else (k, p) ∷ rest

abbrev pub payload_part : Text → ℕ → Text
payload_part payload i = text_or [] (get_elem? (split b'|' payload) i)

abbrev pub pay_entry : PoolLedgerEntry → List (Text × Paid) → List (Text × Paid)
pay_entry e out = elim (paid_author e.ret) [
  | none ↦ out
  | some units ↦
      let author = payload_part e.payload 0 in
      let permlink = payload_part e.payload 1 in
      if not e.ok || is_empty author || is_empty permlink
      then out
      else set_paid (author ++ b'|' ∷ permlink)
          (record { units = units; height = e.height; tx_id = e.tx_id }) out
]

abbrev pub pay_entries : List PoolLedgerEntry → List (Text × Paid) → List (Text × Paid)
pay_entries [] out = out
pay_entries (e ∷ es) out = pay_entries es (pay_entry e out)

-- `payoutLedger`
unfoldable pub payout_ledger : (ℕ → List ChainTx) → (ℕ → List Output) → ℕ → List (Text × Paid)
payout_ledger page outputs limit =
    pay_entries (call_ledger_walk page outputs (codes "payout" ∷ []) limit) []
