-- ===== src/Ledger/Account/Complete.antt =====
-- A list with the keys of all rows of `accountOps` (api/src/magi-backend.ts) leaves nothing out.
use lasse_cash_migration_to.Prelude.Members.{All-Mem, any-Mem, Mem-any}
use lasse_cash_migration_to.Prelude.Keys.{has_key}
use lasse_cash_migration_to.Prelude.{
  ◌∷◌, [], ◌≡◌, refl, subst, inl, inr, Bool, true, false, Option, some, List, arith, Bool-cases,
  Option-cases, all, any, All, All-map, Text, text_eq, text_eq_refl, text_eq→eq, lacks, is_empty,
}
use lasse_cash_migration_to.Activity.{AccountOp}
use lasse_cash_migration_to.Ledger.Transactions.{ChainOp, ChainTx, text_or, is_call, is_confirmed}
use lasse_cash_migration_to.Ledger.Account.{
  Fetched, called, all_rows, own_calls, add_incoming, moves_of, incoming_of, row_key,
}
use lasse_cash_migration_to.Ledger.Account.Sources.{is_move, direction, move_text, is_transfer_to}
use lasse_cash_migration_to.Ledger.Account.Found.{
  has_id, CallKeys, MoveKeys, Receipts, own_calls-CallKeys, moves_of-MoveKeys,
  add_incoming-Receipts, any-add_incoming, any-left, any-right,
}
use lasse_cash_migration_to.Ledger.Account.Plain.{
  IsPlain, IsPlainRow, is_row, call_listed, move_listed, receipt_listed, IsComplete,
  has_key-is_listed, direction-plain,
}

all_of_All {ℓ} :
    {A : Type ℓ} (p : A → Bool) (xs : List A) → All (λ x. p x ≡ true) xs → all p xs ≡ true
all_of_All p [] h = refl
all_of_All p (x ∷ xs) h = rw (h.0, all_of_All p xs h.1) refl

All-both {ℓ κ μ} :
    {A : Type ℓ} (P : A → Type κ) (Q : A → Type μ) (xs : List A)
    → All P xs
    → All Q xs
    → All (λ x. P x × Q x) xs
All-both P Q [] h k = tt
All-both P Q (x ∷ xs) h k = ((h.0, k.0), All-both P Q xs h.1 k.1)

-- A list that has the keys of all rows has a row of everything.
module _ (me : Text) (out : List AccountOp) (plain : All IsPlainRow out) where
  abbrev Has : Text → Type 0
  Has key = has_key row_key key out ≡ true

  called_of :
      (op : ChainOp) (a : Text)
      → op.action ≡ some a
      → is_call op ≡ true
      → is_empty a ≡ false
      → called op ≡ some a
  called_of op a action call full = rw (call, action, full) refl

  CallKeys-call_listed :
      (tx : ChainTx) (op : ChainOp)
      → lacks b':' tx.id ≡ true
      → lacks b':' (text_or [] op.action) ≡ true
      → CallKeys Has tx op
      → call_listed out tx op ≡ true
  CallKeys-call_listed tx op hi ha keys = elim (Option-cases op.action) [
    | inl missing ↦ rw missing refl
    | inr (a, there) ↦ rw there (elim (Bool-cases (is_call op)) [
      | inr other ↦ rw other refl
      | inl call ↦ elim (Bool-cases (is_empty a)) [
        | inl empty ↦ rw (call, empty) refl
        | inr full ↦
            let key = keys a (called_of op a there call full) in
            let listed =
              has_key-is_listed out plain tx.id a (text_or [] op.payload) hi (rw there at ha) key in
            rw (call, full, listed) refl
      ]
    ])
  ]

  MoveKeys-move_listed :
      (tx : ChainTx) (op : ChainOp)
      → lacks b':' tx.id ≡ true
      → MoveKeys Has me tx op
      → move_listed me out tx op ≡ true
  MoveKeys-move_listed tx op hi keys = elim (Bool-cases (is_move op)) [
    | inr other ↦ rw other refl
    | inl move ↦
        let listed =
          has_key-is_listed out plain tx.id (direction me op) (move_text op) hi
            (direction-plain me op) (keys move) in
        rw (move, listed) refl
  ]

  Receipts-receipt_listed :
      (tx : ChainTx) → Receipts me (λ id. has_id id out ≡ true) tx → receipt_listed me out tx ≡ true
  Receipts-receipt_listed tx keys = elim (Bool-cases (is_confirmed tx)) [
    | inr other ↦ rw other refl
    | inl ok ↦ elim (Bool-cases (any (is_transfer_to me) tx.ops)) [
      | inr away ↦ rw (ok, away) refl
      | inl to_me ↦ rw (ok, to_me, keys ok to_me) refl
    ]
  ]

  -- The row of an id among all rows is kept with its key.
  id_kept :
      (rows : List AccountOp)
      → All IsPlainRow rows
      → ((key : Text) → has_key row_key key rows ≡ true → Has key)
      → (id : Text) → has_id id rows ≡ true
      → has_id id out ≡ true
  id_kept rows all_plain up id h =
      let (r, m, same) = any-Mem (λ o. text_eq o.id id) rows h in
      let (hi, ha) = All-Mem IsPlainRow r rows all_plain m in
      let key =
        up (row_key r)
          (Mem-any (λ o. text_eq (row_key r) (row_key o)) r rows m (text_eq_refl (row_key r))) in
      let listed = has_key-is_listed out plain r.id r.action r.payload hi ha key in
      let (o, k, equal) = any-Mem (is_row r.id r.action r.payload) out listed in
      let e : r.id ≡ o.id = text_eq→eq r.id o.id (ground arith) in
      Mem-any (λ p. text_eq p.id id) o out k (subst (λ t. text_eq t id ≡ true) e same)

  pub Has-IsComplete :
      (fetch : ChainTx → Fetched) (txs : List ChainTx) (incoming : Option (List ChainTx))
      → All IsPlain txs
      → All IsPlainRow (all_rows me fetch txs incoming)
      → ((key : Text) → has_key row_key key (all_rows me fetch txs incoming) ≡ true → Has key)
      → IsComplete me txs (incoming_of incoming) out
  Has-IsComplete fetch txs incoming names all_plain up =
      let recent = incoming_of incoming in
      let calls = own_calls fetch txs in
      let received = add_incoming me recent calls in
      let call_keys = own_calls-CallKeys Has fetch txs (λ key h. up key (
        any-left (λ o. text_eq key (row_key o)) received (moves_of me txs)
          (any-add_incoming me (λ o. text_eq key (row_key o)) recent calls h))) in
      let move_keys =
        moves_of-MoveKeys Has me txs (λ key h.
          up key (any-right (λ o. text_eq key (row_key o)) received (moves_of me txs) h)) in
      let receipts =
        add_incoming-Receipts me (λ id. has_id id out ≡ true) recent calls
          (λ id h.
            id_kept (all_rows me fetch txs incoming) all_plain up id
              (any-left (λ o. text_eq o.id id) received (moves_of me txs) h)) in
      (
        all_of_All (λ tx. all (call_listed out tx) tx.ops) txs
            (All-map txs
              (λ tx h. all_of_All (call_listed out tx) tx.ops (
                All-map tx.ops (λ op k. CallKeys-call_listed tx op h.0.0 k.0 k.1)
                  (All-both (λ op. lacks b':' (text_or [] op.action) ≡ true) (CallKeys Has tx)
                    tx.ops h.0.1 h.1)))
              (All-both IsPlain (λ tx. All (CallKeys Has tx) tx.ops) txs names call_keys)),
        all_of_All (λ tx. all (move_listed me out tx) tx.ops) txs
            (All-map txs
              (λ tx h.
                all_of_All (move_listed me out tx) tx.ops
                  (All-map tx.ops (λ op k. MoveKeys-move_listed tx op h.0.0 k) h.1))
              (All-both IsPlain (λ tx. All (MoveKeys Has me tx) tx.ops) txs names move_keys)),
        all_of_All (receipt_listed me out) recent
            (All-map recent (λ tx k. Receipts-receipt_listed tx k) receipts),
      )
