-- ===== src/Ledger/Account/Sources.antt =====
-- Where the rows of `accountOps` (api/src/magi-backend.ts) come from: a call or a move of a transaction of
-- the account, or a transfer to it among the contract's recent calls.
use mathlib.Core.List.{Memᴰ}
use mathlib.Core.List.Memᴰ.{head, tail}
use lasse_cash_migration_to.Prelude.{
  ◌∷◌, ◌++◌, [], ℕ, suc, ◌≡◌, refl, sym, ◌∙◌, subst, ◌⊎◌, inl, inr, Bool, true, ◌&&◌, Option, none,
  some, List, map, arith, Bool-cases, if◌then◌else◌, filter, All, All-map, All-append, Text, codes,
  text_eq, starts_with, is_empty, Option-cases,
}
use lasse_cash_migration_to.Activity.{AccountOp, Status}
use lasse_cash_migration_to.Ledger.Transactions.{
  ChainOp, ChainTx, text_or, is_call, is_confirmed, signer_of, action_of,
}
use lasse_cash_migration_to.Ledger.Account.{
  Fetched, status_of, called, calls_of_tx, is_there, add_call, own_calls, is_incoming, incoming_row,
  add_incoming_ops, add_incoming, move_row, moves_of, incoming_of, all_rows,
}

-- A call with an action.
abbrev pub IsCallOf : ChainOp → AccountOp → Type 0
IsCallOf op o =
    (is_call op ≡ true) × (op.action ≡ some o.action) × (o.payload ≡ text_or [] op.payload)

-- `from|to|amount|asset`
abbrev pub move_text : ChainOp → Text
move_text op =
    text_or [] op.from
    ++ b'|' ∷ text_or [] op.to
    ++ b'|' ∷ text_or [] op.amount
    ++ b'|' ∷ text_or [] op.asset

abbrev pub direction : Text → ChainOp → Text
direction me op = if text_eq (text_or [] op.to) me then codes "+ledger" else codes "ledger"

abbrev pub is_move : ChainOp → Bool
is_move op = text_eq op.type (codes "transfer")

-- A move of HBD or HIVE, to the account or from it.
abbrev pub IsMoveOf : Text → ChainOp → AccountOp → Type 0
IsMoveOf me op o = (is_move op ≡ true) × (o.action ≡ direction me op) × (o.payload ≡ move_text op)

-- A row of a transaction of the account.
abbrev pub IsOwn : Text → ChainTx → AccountOp → Type 0
IsOwn me tx o =
    (o.id ≡ tx.id)
    × (o.time ≡ tx.anchr_ts)
    × (o.status ≡ status_of tx)
    × ((op : ChainOp) × Memᴰ op tx.ops × (IsCallOf op o ⊎ IsMoveOf me op o))

-- A transfer to the account.
abbrev pub is_transfer_to : Text → ChainOp → Bool
is_transfer_to me op =
    is_call op
    && text_eq (text_or [] op.action) (codes "transfer")
    && starts_with (me ++ b'|' ∷ []) (text_or [] op.payload)

-- A row of a confirmed transaction of the contract, with the sender behind the payload.
abbrev pub IsReceipt : Text → ChainTx → AccountOp → Type 0
IsReceipt me tx o =
    (o.id ≡ tx.id)
    × (o.time ≡ tx.anchr_ts)
    × (o.status ≡ Status.confirmed)
    × (is_confirmed tx ≡ true)
    × (o.action ≡ codes "+transfer")
    × ((op : ChainOp) × Memᴰ op tx.ops
        × (is_transfer_to me op ≡ true)
        × (o.payload ≡ text_or [] op.payload ++ b'|' ∷ signer_of tx))

abbrev pub IsSourced : Text → List ChainTx → List ChainTx → AccountOp → Type 0
IsSourced me txs recent o =
    ((tx : ChainTx) × Memᴰ tx txs × IsOwn me tx o)
    ⊎ ((tx : ChainTx) × Memᴰ tx recent × IsReceipt me tx o)

pub action_of-some : (op : ChainOp) (a : Text) → action_of op ≡ some a → op.action ≡ some a
action_of-some op a h = elim (Option-cases op.action) [
  | inl missing ↦ let k : none ≡ some a = rw missing at h in absurd (cc)
  | inr (b, there) ↦ elim (Bool-cases (is_empty b)) [
    | inl empty ↦ let k : none ≡ some a = rw (there, empty) at h in absurd (cc)
    | inr full ↦ let k : some b ≡ some a = rw (there, full) at h in there ∙ k
  ]
]

called-some :
    (op : ChainOp) (a : Text) → called op ≡ some a → (is_call op ≡ true) × (op.action ≡ some a)
called-some op a h = elim (Bool-cases (is_call op)) [
  | inl call ↦ (call, action_of-some op a (rw call at h))
  | inr other ↦ absurd (ground arith)
]

module _ (me : Text) where
  calls_of_tx-IsOwn :
      (fetched : Fetched) (tx : ChainTx) (i j : ℕ) (ops : List ChainOp)
      → ((op : ChainOp) → Memᴰ op ops → Memᴰ op tx.ops)
      → All (IsOwn me tx) (calls_of_tx fetched tx i j ops)
  calls_of_tx-IsOwn fetched tx i j [] sub = tt
  calls_of_tx-IsOwn fetched tx i j (op ∷ ops) sub =
      let next = if is_there (called op) then suc j else j in
      let rest = calls_of_tx-IsOwn fetched tx (suc i) next ops (λ o m. sub o (tail m)) in
      elim (Option-cases (called op)) [
        | inl none_here ↦
            subst
              (λ c.
                All (IsOwn me tx)
                  (add_call fetched tx op i j c (calls_of_tx fetched tx (suc i) next ops)))
              (sym none_here) rest
        | inr (a, here) ↦
            let (call, action) = called-some op a here in
            subst
              (λ c.
                All (IsOwn me tx)
                  (add_call fetched tx op i j c (calls_of_tx fetched tx (suc i) next ops)))
              (sym here)
              ((refl, refl, refl, (op, sub op (head refl), inl (call, action, refl))), rest)
      ]

  own_calls-IsSourced :
      (fetch : ChainTx → Fetched) (all_txs recent txs : List ChainTx)
      → ((tx : ChainTx) → Memᴰ tx txs → Memᴰ tx all_txs)
      → All (IsSourced me all_txs recent) (own_calls fetch txs)
  own_calls-IsSourced fetch all_txs recent [] sub = tt
  own_calls-IsSourced fetch all_txs recent (tx ∷ txs) sub =
      let here = calls_of_tx-IsOwn (fetch tx) tx 0 0 tx.ops (λ op m. m) in
      All-append (IsSourced me all_txs recent) (calls_of_tx (fetch tx) tx 0 0 tx.ops)
        (own_calls fetch txs)
        (All-map (calls_of_tx (fetch tx) tx 0 0 tx.ops) (λ o own. inl (tx, sub tx (head refl), own))
          here)
        (own_calls-IsSourced fetch all_txs recent txs (λ t m. sub t (tail m)))

  moves_of_tx-IsOwn :
      (tx : ChainTx) (ops : List ChainOp)
      → ((op : ChainOp) → Memᴰ op ops → Memᴰ op tx.ops)
      → All (IsOwn me tx) (map (move_row me tx) (filter is_move ops))
  moves_of_tx-IsOwn tx [] sub = tt
  moves_of_tx-IsOwn tx (op ∷ ops) sub =
      let rest = moves_of_tx-IsOwn tx ops (λ o m. sub o (tail m)) in
      elim (Bool-cases (is_move op)) [
        | inr other ↦ rw other rest
        | inl move ↦
            rw move ((refl, refl, refl, (op, sub op (head refl), inr (move, refl, refl))), rest)
      ]

  moves_of-IsSourced :
      (all_txs recent txs : List ChainTx)
      → ((tx : ChainTx) → Memᴰ tx txs → Memᴰ tx all_txs)
      → All (IsSourced me all_txs recent) (moves_of me txs)
  moves_of-IsSourced all_txs recent [] sub = tt
  moves_of-IsSourced all_txs recent (tx ∷ txs) sub =
      let rows = map (move_row me tx) (filter is_move tx.ops) in
      All-append (IsSourced me all_txs recent) rows (moves_of me txs)
        (All-map rows (λ o own. inl (tx, sub tx (head refl), own))
          (moves_of_tx-IsOwn tx tx.ops (λ op m. m)))
        (moves_of-IsSourced all_txs recent txs (λ t m. sub t (tail m)))

  module _ (txs recent : List ChainTx) where
    abbrev S : AccountOp → Type 0
    S = IsSourced me txs recent

    add_incoming_ops-IsSourced :
        (tx : ChainTx) (ops : List ChainOp) (out : List AccountOp)
        → Memᴰ tx recent
        → is_confirmed tx ≡ true
        → ((op : ChainOp) → Memᴰ op ops → Memᴰ op tx.ops)
        → All S out
        → All S (add_incoming_ops me tx ops out)
    add_incoming_ops-IsSourced tx [] out m ok sub h = h
    add_incoming_ops-IsSourced tx (op ∷ ops) out m ok sub h =
        let sub' : (o : ChainOp) → Memᴰ o ops → Memᴰ o tx.ops = λ o k. sub o (tail k) in
        elim (Bool-cases (is_incoming me out tx op)) [
          | inr other ↦ rw other (add_incoming_ops-IsSourced tx ops out m ok sub' h)
          | inl incoming ↦
              let to_me : is_transfer_to me op ≡ true = ground arith in
              let row : S (incoming_row tx op) =
                inr (tx, m, (refl, refl, refl, ok, refl, (op, sub op (head refl), to_me, refl))) in
              rw incoming (
                add_incoming_ops-IsSourced tx ops (out ++ incoming_row tx op ∷ []) m ok sub'
                  (All-append S out (incoming_row tx op ∷ []) h (row, tt)))
        ]

    add_incoming-IsSourced :
        (some_txs : List ChainTx) (out : List AccountOp)
        → ((tx : ChainTx) → Memᴰ tx some_txs → Memᴰ tx recent)
        → All S out
        → All S (add_incoming me some_txs out)
    add_incoming-IsSourced [] out sub h = h
    add_incoming-IsSourced (tx ∷ some_txs) out sub h =
        let sub' : (t : ChainTx) → Memᴰ t some_txs → Memᴰ t recent = λ t k. sub t (tail k) in
        elim (Bool-cases (is_confirmed tx)) [
          | inr other ↦ rw other (add_incoming-IsSourced some_txs out sub' h)
          | inl ok ↦ rw ok (
              add_incoming-IsSourced some_txs (add_incoming_ops me tx tx.ops out) sub'
                (add_incoming_ops-IsSourced tx tx.ops out (sub tx (head refl)) ok (λ o k. k) h))
        ]

  pub all_rows-IsSourced :
      (fetch : ChainTx → Fetched) (txs : List ChainTx) (incoming : Option (List ChainTx))
      → All (IsSourced me txs (incoming_of incoming)) (all_rows me fetch txs incoming)
  all_rows-IsSourced fetch txs incoming =
      let recent = incoming_of incoming in
      let calls = own_calls fetch txs in
      All-append (IsSourced me txs recent) (add_incoming me recent calls) (moves_of me txs)
        (add_incoming-IsSourced txs recent recent calls (λ t m. m)
          (own_calls-IsSourced fetch txs recent txs (λ t m. m)))
        (moves_of-IsSourced txs recent txs (λ t m. m))
