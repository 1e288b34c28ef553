-- ===== src/Ledger/Account/Found.antt =====
-- What `accountOps` (api/src/magi-backend.ts) finds: a row of every call and move of the account, and of
-- every transaction that transfers to it.
use lasse_cash_migration_to.Prelude.{
  ◌∷◌, ◌++◌, [], ℕ, suc, ◌≡◌, refl, sym, subst, inl, inr, Bool, true, ◌||◌, Option, none, some,
  List, map, arith, Bool-cases, if◌then◌else◌, filter, any, All, Text, text_eq, text_eq_refl,
}
use lasse_cash_migration_to.Prelude.Keys.{has_key}
use lasse_cash_migration_to.Activity.{AccountOp}
use lasse_cash_migration_to.Ledger.Transactions.{ChainOp, ChainTx, text_or, is_confirmed}
use lasse_cash_migration_to.Ledger.Account.{
  Fetched, called, calls_of_tx, is_there, add_call, own_calls, is_incoming, incoming_row,
  add_incoming_ops, add_incoming, move_row, moves_of, row_key,
}
use lasse_cash_migration_to.Ledger.Account.Sources.{is_move, direction, move_text, is_transfer_to}

abbrev pub key_text : Text → Text → Text → Text
key_text id action payload = id ++ b':' ∷ action ++ b':' ∷ payload

pub any-left {ℓ} :
    {A : Type ℓ} (p : A → Bool) (xs ys : List A) → any p xs ≡ true → any p (xs ++ ys) ≡ true
any-left p [] ys h = absurd (cc)
any-left p (x ∷ xs) ys h = ground (arith, any-left p xs ys)

pub any-right {ℓ} :
    {A : Type ℓ} (p : A → Bool) (xs ys : List A) → any p ys ≡ true → any p (xs ++ ys) ≡ true
any-right p [] ys h = h
any-right p (x ∷ xs) ys h = ground (arith, any-right p xs ys)

module _ (Good : Text → Type 0) where
  -- What holds of the key of every call, and of every move.
  abbrev pub CallKeys : ChainTx → ChainOp → Type 0
  CallKeys tx op = (a : Text) → called op ≡ some a → Good (key_text tx.id a (text_or [] op.payload))

  abbrev pub MoveKeys : Text → ChainTx → ChainOp → Type 0
  MoveKeys me tx op = is_move op ≡ true → Good (key_text tx.id (direction me op) (move_text op))

  has_key-add_call :
      (fetched : Fetched) (tx : ChainTx) (op : ChainOp) (i j : ℕ) (c : Option Text)
      (rest : List AccountOp) (key : Text)
      → has_key row_key key rest ≡ true
      → has_key row_key key (add_call fetched tx op i j c rest) ≡ true
  has_key-add_call fetched tx op i j none rest key h = h
  has_key-add_call fetched tx op i j (some a) rest key h = rw h (ground arith)

  calls_of_tx-CallKeys :
      (fetched : Fetched) (tx : ChainTx) (i j : ℕ) (ops : List ChainOp)
      → ((key : Text) → has_key row_key key (calls_of_tx fetched tx i j ops) ≡ true → Good key)
      → All (CallKeys tx) ops
  calls_of_tx-CallKeys fetched tx i j [] up = tt
  calls_of_tx-CallKeys fetched tx i j (op ∷ ops) up =
      let next = if is_there (called op) then suc j else j in
      let rest = calls_of_tx fetched tx (suc i) next ops in
      (
        λ a here.
            let key = key_text tx.id a (text_or [] op.payload) in
            up key (
              subst (λ c. has_key row_key key (add_call fetched tx op i j c rest) ≡ true) (sym here)
                (rw (text_eq_refl key) refl)),
        calls_of_tx-CallKeys fetched tx (suc i) next ops
            (λ key h. up key (has_key-add_call fetched tx op i j (called op) rest key h)),
      )

  pub own_calls-CallKeys :
      (fetch : ChainTx → Fetched) (txs : List ChainTx)
      → ((key : Text) → has_key row_key key (own_calls fetch txs) ≡ true → Good key)
      → All (λ tx. All (CallKeys tx) tx.ops) txs
  own_calls-CallKeys fetch [] up = tt
  own_calls-CallKeys fetch (tx ∷ txs) up =
      let here = calls_of_tx (fetch tx) tx 0 0 tx.ops in
      (
        calls_of_tx-CallKeys (fetch tx) tx 0 0 tx.ops (λ key h.
            up key (any-left (λ o. text_eq key (row_key o)) here (own_calls fetch txs) h)),
        own_calls-CallKeys fetch txs (λ key h.
            up key (any-right (λ o. text_eq key (row_key o)) here (own_calls fetch txs) h)),
      )

  module _ (me : Text) where
    moves_of_tx-MoveKeys :
        (tx : ChainTx) (ops : List ChainOp)
        → ((key : Text)
            → has_key row_key key (map (move_row me tx) (filter is_move ops)) ≡ true
            → Good key)
        → All (MoveKeys me tx) ops
    moves_of_tx-MoveKeys tx [] up = tt
    moves_of_tx-MoveKeys tx (op ∷ ops) up = elim (Bool-cases (is_move op)) [
      | inr other ↦ (λ move. absurd (cc), moves_of_tx-MoveKeys tx ops (rw other at up))
      | inl move ↦
          let key = key_text tx.id (direction me op) (move_text op) in
          let up' : (k : Text)
              → (text_eq k key || has_key row_key k (map (move_row me tx) (filter is_move ops)))
                ≡ true
              → Good k =
            rw move at up in
          (
            λ _. up' key (rw (text_eq_refl key) refl),
            moves_of_tx-MoveKeys tx ops (λ k h. up' k (rw h (ground arith))),
          )
    ]

    pub moves_of-MoveKeys :
        (txs : List ChainTx)
        → ((key : Text) → has_key row_key key (moves_of me txs) ≡ true → Good key)
        → All (λ tx. All (MoveKeys me tx) tx.ops) txs
    moves_of-MoveKeys [] up = tt
    moves_of-MoveKeys (tx ∷ txs) up =
        let here = map (move_row me tx) (filter is_move tx.ops) in
        (
          moves_of_tx-MoveKeys tx tx.ops
              (λ key h. up key (any-left (λ o. text_eq key (row_key o)) here (moves_of me txs) h)),
          moves_of-MoveKeys txs
              (λ key h. up key (any-right (λ o. text_eq key (row_key o)) here (moves_of me txs) h)),
        )

-- A row of the transaction is there already, or is added.
abbrev pub has_id : Text → List AccountOp → Bool
has_id id out = any (λ o. text_eq o.id id) out

module _ (me : Text) where
  any-add_incoming_ops :
      (p : AccountOp → Bool) (tx : ChainTx) (ops : List ChainOp) (out : List AccountOp)
      → any p out ≡ true
      → any p (add_incoming_ops me tx ops out) ≡ true
  any-add_incoming_ops p tx [] out h = h
  any-add_incoming_ops p tx (op ∷ ops) out h = elim (Bool-cases (is_incoming me out tx op)) [
    | inr other ↦ rw other (any-add_incoming_ops p tx ops out h)
    | inl incoming ↦ rw incoming (
        any-add_incoming_ops p tx ops (out ++ incoming_row tx op ∷ [])
          (any-left p out (incoming_row tx op ∷ []) h))
  ]

  pub any-add_incoming :
      (p : AccountOp → Bool) (txs : List ChainTx) (out : List AccountOp)
      → any p out ≡ true
      → any p (add_incoming me txs out) ≡ true
  any-add_incoming p [] out h = h
  any-add_incoming p (tx ∷ txs) out h = elim (Bool-cases (is_confirmed tx)) [
    | inr other ↦ rw other (any-add_incoming p txs out h)
    | inl ok ↦ rw ok (
        any-add_incoming p txs (add_incoming_ops me tx tx.ops out)
          (any-add_incoming_ops p tx tx.ops out h))
  ]

  -- A transfer of the transaction leaves a row of it.
  add_incoming_ops-has_id :
      (tx : ChainTx) (ops : List ChainOp) (out : List AccountOp)
      → any (is_transfer_to me) ops ≡ true
      → has_id tx.id (add_incoming_ops me tx ops out) ≡ true
  add_incoming_ops-has_id tx [] out h = absurd (cc)
  add_incoming_ops-has_id tx (op ∷ ops) out h = elim (Bool-cases (is_incoming me out tx op)) [
    | inl incoming ↦ rw incoming (
        any-add_incoming_ops (λ o. text_eq o.id tx.id) tx ops (out ++ incoming_row tx op ∷ [])
          (any-right (λ o. text_eq o.id tx.id) out (incoming_row tx op ∷ [])
            (rw (text_eq_refl tx.id) refl)))
    | inr other ↦ rw other (elim (Bool-cases (is_transfer_to me op)) [
      | inr not_to ↦ add_incoming_ops-has_id tx ops out (rw not_to at h)
      | inl to_me ↦
          let there : has_id tx.id out ≡ true = ground arith in
          any-add_incoming_ops (λ o. text_eq o.id tx.id) tx ops out there
    ])
  ]

  abbrev pub Receipts : (Text → Type 0) → ChainTx → Type 0
  Receipts Good tx = is_confirmed tx ≡ true → any (is_transfer_to me) tx.ops ≡ true → Good tx.id

  pub add_incoming-Receipts :
      (Good : Text → Type 0) (txs : List ChainTx) (out : List AccountOp)
      → ((id : Text) → has_id id (add_incoming me txs out) ≡ true → Good id)
      → All (Receipts Good) txs
  add_incoming-Receipts Good [] out up = tt
  add_incoming-Receipts Good (tx ∷ txs) out up = elim (Bool-cases (is_confirmed tx)) [
    | inr other ↦ (λ ok to. absurd (cc), add_incoming-Receipts Good txs out (rw other at up))
    | inl ok ↦
        let out' = add_incoming_ops me tx tx.ops out in
        let up' : (id : Text) → has_id id (add_incoming me txs out') ≡ true → Good id =
          rw ok at up in
        (
          λ _ to. up' tx.id (
              any-add_incoming (λ o. text_eq o.id tx.id) txs out'
                (add_incoming_ops-has_id tx tx.ops out to)),
          add_incoming-Receipts Good txs out' up',
        )
  ]
