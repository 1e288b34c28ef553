-- ===== src/Ledger/Tally/Counts.antt =====
-- The counts of `activity` of api/src/magi-backend.ts.
use lasse_cash_migration_to.Prelude.{
  is_empty, ◌∷◌, [], ℕ, suc, ◌+◌, ◌≡◌, refl, inl, inr, Bool, not, ◌&&◌, Option, none, some, List,
  arith, ltb, if◌then◌else◌, Bool-cases, all, All, Text, text_eq,
}
use lasse_cash_migration_to.Prelude.Keys.{insert_stable, sort_onto}
use lasse_cash_migration_to.Ledger.Transactions.{ChainOp, ChainTx, is_confirmed, signer_of}
use lasse_cash_migration_to.Ledger.Tally.{
  AccountActivity, count_action, called, add_call, add_called, add_ops, consume, activity,
}

-- The calls of a row by kind, and those of all rows.
abbrev pub sum_actions : List (Text × ℕ) → ℕ
sum_actions [] = 0
sum_actions ((a, n) ∷ actions) = n + sum_actions actions

abbrev pub total : List AccountActivity → ℕ
total [] = 0
total (row ∷ rows) = row.calls + total rows

abbrev pub IsCounted : AccountActivity → Type 0
IsCounted row = row.calls ≡ sum_actions row.actions

-- The calls that count: those with an action, in a confirmed transaction with a signer.
abbrev pub one_if_called : Option Text → ℕ
one_if_called none = 0
one_if_called (some action) = 1

abbrev pub calls_in_ops : List ChainOp → ℕ
calls_in_ops [] = 0
calls_in_ops (op ∷ ops) = one_if_called (called op) + calls_in_ops ops

abbrev pub calls_in : List ChainTx → ℕ
calls_in [] = 0
calls_in (tx ∷ txs) =
    let rest = calls_in txs in
    if is_confirmed tx && not (is_empty (signer_of tx)) then calls_in_ops tx.ops + rest else rest

abbrev by_calls : AccountActivity → AccountActivity → Bool
by_calls a b = ltb b.calls a.calls

sum-count_action :
    (action : Text) (actions : List (Text × ℕ))
    → sum_actions (count_action action actions) ≡ suc (sum_actions actions)
sum-count_action action [] = omega arith
sum-count_action action ((a, n) ∷ actions) = ground (arith, sum-count_action action actions)

module _ (earlier : Text → Text → Bool) where
  -- So many calls in all, and every row counted.
  abbrev Holds : ℕ → List AccountActivity → Type 0
  Holds n rows = (total rows ≡ n) × All IsCounted rows

  add_call-Holds :
      (signer action ts : Text) (n : ℕ) (rows : List AccountActivity)
      → Holds n rows
      → Holds (suc n) (add_call earlier signer action ts rows)
  add_call-Holds signer action ts n [] (t, c) = (omega (arith, t), (refl, tt))
  add_call-Holds signer action ts n (row ∷ rows) (t, (c, cs)) =
      elim (Bool-cases (text_eq signer row.account)) [
        | inl same ↦
            rw same (omega (arith, t), (omega (arith, c, sum-count_action action row.actions), cs))
        | inr other ↦
            let (t', cs') = add_call-Holds signer action ts (total rows) rows (refl, cs) in
            rw other (omega (arith, t, t'), (c, cs'))
      ]

  add_called-Holds :
      (tx : ChainTx) (action : Option Text) (n : ℕ) (rows : List AccountActivity)
      → Holds n rows
      → Holds (n + one_if_called action) (add_called earlier tx action rows)
  add_called-Holds tx none n rows (t, c) = (omega (arith, t), c)
  add_called-Holds tx (some action) n rows h =
      let (t, c) = add_call-Holds (signer_of tx) action tx.anchr_ts n rows h in
      (omega (arith, t), c)

  add_ops-Holds :
      (tx : ChainTx) (ops : List ChainOp) (n : ℕ) (rows : List AccountActivity)
      → Holds n rows
      → Holds (n + calls_in_ops ops) (add_ops earlier tx ops rows)
  add_ops-Holds tx [] n rows (t, c) = (omega (arith, t), c)
  add_ops-Holds tx (op ∷ ops) n rows h =
      let (t, c) =
        add_ops-Holds tx ops (n + one_if_called (called op))
          (add_called earlier tx (called op) rows) (add_called-Holds tx (called op) n rows h) in
      (omega (arith, t), c)

  consume-Holds :
      (txs : List ChainTx) (n : ℕ) (rows : List AccountActivity)
      → Holds n rows
      → Holds (n + calls_in txs) (consume earlier txs rows)
  consume-Holds [] n rows (t, c) = (omega (arith, t), c)
  consume-Holds (tx ∷ txs) n rows h =
      elim (Bool-cases (is_confirmed tx && not (is_empty (signer_of tx)))) [
        | inl counts ↦
            let (t, c) =
              consume-Holds txs (n + calls_in_ops tx.ops) (add_ops earlier tx tx.ops rows)
                (add_ops-Holds tx tx.ops n rows h) in
            rw counts (omega (arith, t), c)
        | inr skipped ↦ rw skipped (consume-Holds txs n rows h)
      ]

  insert-Holds :
      (row : AccountActivity) (n : ℕ) (rows : List AccountActivity)
      → IsCounted row
      → Holds n rows
      → Holds (row.calls + n) (insert_stable (λ r. r.account) by_calls row rows)
  insert-Holds row n [] c (t, cs) = (omega (arith, t), (c, tt))
  insert-Holds row n (r ∷ rows) c (t, (cr, cs)) = elim (Bool-cases (by_calls row r)) [
    | inl before ↦ rw before (omega (arith, t), (c, (cr, cs)))
    | inr behind ↦
        let (t', cs') = insert-Holds row (total rows) rows c (refl, cs) in
        rw behind (omega (arith, t, t'), (cr, cs'))
  ]

  sort-Holds :
      (rows : List AccountActivity) (n : ℕ) (sorted : List AccountActivity)
      → All IsCounted rows
      → Holds n sorted
      → Holds (n + total rows) (sort_onto (λ r. r.account) by_calls sorted rows)
  sort-Holds [] n sorted cs (t, c) = (omega (arith, t), c)
  sort-Holds (row ∷ rows) n sorted (c, cs) h =
      let (t, all) =
        sort-Holds rows (row.calls + n) (insert_stable (λ r. r.account) by_calls row sorted) cs
          (insert-Holds row n sorted c h) in
      (omega (arith, t), all)

  -- The accounts' calls add up to the calls of the confirmed transactions that have a signer and an
  -- action, and each account's calls to its calls of every kind.
  pub activity-Holds :
      (txs : List ChainTx)
      → (total (activity earlier txs) ≡ calls_in txs) × All IsCounted (activity earlier txs)
  unfolding activity
  activity-Holds txs =
      let (t, c) = consume-Holds txs 0 [] (refl, tt) in
      let (t', c') = sort-Holds (consume earlier txs []) 0 [] c (refl, tt) in
      (omega (arith, t, t'), c')
