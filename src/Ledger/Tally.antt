-- ===== src/Ledger/Tally.antt =====
-- api/src/magi-backend.ts: `activity`, the confirmed calls by their signer. The transactions that are
-- read, of the index or of the node's pages, are an argument.
pub mod Counts
use lasse_cash_migration_to.Prelude.{
  is_empty, ◌∷◌, [], ℕ, suc, ◌+◌, ◌≡◌, Bool, not, ◌&&◌, Option, none, some, List, arith, ltb, ◌==◌,
  if◌then◌else◌, Text, text_eq,
}
use lasse_cash_migration_to.Prelude.Keys.{sort_onto}
use lasse_cash_migration_to.Ledger.Transactions.{
  ChainOp, ChainTx, is_call, is_confirmed, signer_of, action_of,
}

-- `AccountActivity`
pub record AccountActivity : Type 0 where
  pub account : Text
  pub actions : List (Text × ℕ)
  pub calls : ℕ
  pub last_seen : Text

-- `actions[action] = (actions[action] ?? 0) + 1`
abbrev pub count_action : Text → List (Text × ℕ) → List (Text × ℕ)
count_action action [] = (action, 1) ∷ []
count_action action ((a, n) ∷ actions) =
    let rest = count_action action actions in
    if text_eq action a then (a, suc n) ∷ actions else (a, n) ∷ rest

abbrev pub called : ChainOp → Option Text
called op = if is_call op then action_of op else none

module _ (earlier : Text → Text → Bool) where
  -- One call more, at this time.
  abbrev pub count_call : Text → Text → AccountActivity → AccountActivity
  count_call action ts row = record {
    account = row.account;
    actions = count_action action row.actions;
    calls = suc row.calls;
    last_seen = if earlier row.last_seen ts then ts else row.last_seen;
  }

  abbrev pub first_row : Text → Text → AccountActivity
  first_row signer ts = record { account = signer; actions = []; calls = 0; last_seen = ts }

  abbrev pub add_call : Text → Text → Text → List AccountActivity → List AccountActivity
  add_call signer action ts [] = count_call action ts (first_row signer ts) ∷ []
  add_call signer action ts (row ∷ rows) =
      let rest = add_call signer action ts rows in
      if text_eq signer row.account then count_call action ts row ∷ rows else row ∷ rest

  abbrev pub add_called : ChainTx → Option Text → List AccountActivity → List AccountActivity
  add_called tx none rows = rows
  add_called tx (some action) rows = add_call (signer_of tx) action tx.anchr_ts rows

  abbrev pub add_ops : ChainTx → List ChainOp → List AccountActivity → List AccountActivity
  add_ops tx [] rows = rows
  add_ops tx (op ∷ ops) rows = add_ops tx ops (add_called tx (called op) rows)

  -- `consume`
  abbrev pub consume : List ChainTx → List AccountActivity → List AccountActivity
  consume [] rows = rows
  consume (tx ∷ txs) rows =
      consume txs
        (if is_confirmed tx && not (is_empty (signer_of tx)) then add_ops tx tx.ops rows else rows)

  unfoldable pub activity : List ChainTx → List AccountActivity
  activity txs = sort_onto (λ row. row.account) (λ a b. ltb b.calls a.calls) [] (consume txs [])
