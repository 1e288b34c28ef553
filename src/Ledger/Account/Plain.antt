-- ===== src/Ledger/Account/Plain.antt =====
-- Rows told apart by transaction, action and payload, and by the key that `accountOps` of
-- api/src/magi-backend.ts makes of the three.
use lasse_cash_migration_to.Prelude.Members.{All-Mem, any-Mem, Mem-any}
use lasse_cash_migration_to.Prelude.Keys.{has_key, distinct}
use lasse_cash_migration_to.Prelude.{
  ◌∷◌, ◌++◌, [], ℕ, zero, suc, ◌≤◌, ◌≡◌, refl, sym, ap, ◌∙◌, subst, inl, inr, Bool, true, not, ◌&&◌,
  ◌||◌, none, some, List, arith, Bool-cases, length, take, all, any, All, Text, text_eq,
  text_eq_refl, text_eq→eq, lacks, is_empty, parts_equal, append_assoc,
}
use lasse_cash_migration_to.Activity.{AccountOp}
use lasse_cash_migration_to.Ledger.Transactions.{ChainOp, ChainTx, text_or, is_call, is_confirmed}
use lasse_cash_migration_to.Ledger.Account.{row_key}
use lasse_cash_migration_to.Ledger.Account.Sources.{
  IsSourced, is_move, direction, move_text, is_transfer_to,
}
use lasse_cash_migration_to.Ledger.Account.Found.{key_text, has_id}

-- Ids and actions are names without a colon, which separates the parts of a key.
abbrev pub IsPlain : ChainTx → Type 0
IsPlain tx = (lacks b':' tx.id ≡ true) × All (λ op. lacks b':' (text_or [] op.action) ≡ true) tx.ops

-- Is there a row of this transaction, action and payload?
abbrev pub is_row : Text → Text → Text → AccountOp → Bool
is_row id action payload o = text_eq id o.id && text_eq action o.action && text_eq payload o.payload

abbrev pub is_listed : List AccountOp → Text → Text → Text → Bool
is_listed out id action payload = any (is_row id action payload) out

-- No two rows have the same three.
abbrev pub no_twins : List AccountOp → Bool
no_twins [] = true
no_twins (o ∷ out) = not (is_listed out o.id o.action o.payload) && no_twins out

-- A call with an action has a row, and so has a move; a confirmed transfer to the account, its
-- transaction.
abbrev pub call_listed : List AccountOp → ChainTx → ChainOp → Bool
call_listed out tx op = elim op.action [
  | none ↦ true
  | some a ↦ not (is_call op) || is_empty a || is_listed out tx.id a (text_or [] op.payload)
]

abbrev pub move_listed : Text → List AccountOp → ChainTx → ChainOp → Bool
move_listed me out tx op = not (is_move op) || is_listed out tx.id (direction me op) (move_text op)

abbrev pub receipt_listed : Text → List AccountOp → ChainTx → Bool
receipt_listed me out tx =
    not (is_confirmed tx && any (is_transfer_to me) tx.ops) || has_id tx.id out

abbrev pub IsComplete : Text → List ChainTx → List ChainTx → List AccountOp → Type 0
IsComplete me txs recent out =
    (all (λ tx. all (call_listed out tx) tx.ops) txs ≡ true)
    × (all (λ tx. all (move_listed me out tx) tx.ops) txs ≡ true)
    × (all (receipt_listed me out) recent ≡ true)

-- A key spells the three parts.
key_text-is_row :
    (id action payload : Text) (o : AccountOp)
    → lacks b':' id ≡ true
    → lacks b':' action ≡ true
    → lacks b':' o.id ≡ true
    → lacks b':' o.action ≡ true
    → text_eq (key_text id action payload) (row_key o) ≡ true
    → is_row id action payload o ≡ true
key_text-is_row id action payload o hi ha hi' ha' h =
    let same : id ++ b':' ∷ (action ++ b':' ∷ payload)
        ≡ o.id ++ b':' ∷ (o.action ++ b':' ∷ o.payload) =
      sym (append_assoc id (b':' ∷ action) (b':' ∷ payload))
      ∙ text_eq→eq (key_text id action payload) (row_key o) h
      ∙ append_assoc o.id (b':' ∷ o.action) (b':' ∷ o.payload) in
    let (ids, rest) =
      parts_equal b':' id (action ++ b':' ∷ payload) o.id (o.action ++ b':' ∷ o.payload) hi hi'
        same in
    let (actions, payloads) = parts_equal b':' action payload o.action o.payload ha ha' rest in
    let i : text_eq id o.id ≡ true = subst (λ t. text_eq id t ≡ true) ids (text_eq_refl id) in
    let a : text_eq action o.action ≡ true =
      subst (λ t. text_eq action t ≡ true) actions (text_eq_refl action) in
    let p : text_eq payload o.payload ≡ true =
      subst (λ t. text_eq payload t ≡ true) payloads (text_eq_refl payload) in
    rw (i, a, p) refl

is_row-key_text :
    (id action payload : Text) (o : AccountOp)
    → is_row id action payload o ≡ true
    → text_eq (key_text id action payload) (row_key o) ≡ true
is_row-key_text id action payload o h =
    let i : id ≡ o.id = text_eq→eq id o.id (ground arith) in
    let a : action ≡ o.action = text_eq→eq action o.action (ground arith) in
    let p : payload ≡ o.payload = text_eq→eq payload o.payload (ground arith) in
    rw (i, a, p) (text_eq_refl (row_key o))

is_listed-has_key :
    (out : List AccountOp) (id action payload : Text)
    → is_listed out id action payload ≡ true
    → has_key row_key (key_text id action payload) out ≡ true
is_listed-has_key out id action payload h =
    let (o, m, same) = any-Mem (is_row id action payload) out h in
    Mem-any (λ p. text_eq (key_text id action payload) (row_key p)) o out m
      (is_row-key_text id action payload o same)

pub no_twins-distinct : (out : List AccountOp) → distinct row_key out ≡ true → no_twins out ≡ true
no_twins-distinct [] h = refl
no_twins-distinct (o ∷ out) h =
    let rest = no_twins-distinct out (ground arith) in
    elim (Bool-cases (is_listed out o.id o.action o.payload)) [
      | inr alone ↦ rw (alone, rest) refl
      | inl twin ↦
          let k = is_listed-has_key out o.id o.action o.payload twin in absurd (ground arith)
    ]

pub take_short {ℓ} : {A : Type ℓ} (n : ℕ) (xs : List A) → length xs ≤ n → take n xs ≡ xs
take_short zero [] h = refl
take_short zero (x ∷ xs) h = absurd (omega arith)
take_short (suc n) [] h = refl
take_short (suc n) (x ∷ xs) h = ap (λ l. x ∷ l) (take_short n xs (omega arith))

-- Rows of plain transactions have plain ids and actions.
abbrev pub IsPlainRow : AccountOp → Type 0
IsPlainRow o = (lacks b':' o.id ≡ true) × (lacks b':' o.action ≡ true)

pub direction-plain : (me : Text) (op : ChainOp) → lacks b':' (direction me op) ≡ true
direction-plain me op = elim (Bool-cases (text_eq (text_or [] op.to) me)) [
  | inl to_me ↦ rw to_me refl
  | inr away ↦ rw away refl
]

pub IsSourced-IsPlainRow :
    (me : Text) (txs recent : List ChainTx) (o : AccountOp)
    → All IsPlain txs
    → All IsPlain recent
    → IsSourced me txs recent o
    → IsPlainRow o
IsSourced-IsPlainRow me txs recent o h h' (inr (tx, m, (same, time, status, ok, action, rest))) =
    let (id, actions) = All-Mem IsPlain tx recent h' m in (rw same id, rw action refl)
IsSourced-IsPlainRow me txs recent o h h'
      (inl (tx, m, (same, time, status, (op, k, inr (move, action, rest))))) =
    let (id, actions) = All-Mem IsPlain tx txs h m in
    (rw same id, rw action (direction-plain me op))
IsSourced-IsPlainRow me txs recent o h h'
      (inl (tx, m, (same, time, status, (op, k, inl (call, action, rest))))) =
    let (id, actions) = All-Mem IsPlain tx txs h m in
    let named : lacks b':' (text_or [] op.action) ≡ true =
      All-Mem (λ p. lacks b':' (text_or [] p.action) ≡ true) op tx.ops actions k in
    (rw same id, rw action at named)

-- What is found among the keys of rows is listed.
module _ (out : List AccountOp) (plain : All IsPlainRow out) where
  pub has_key-is_listed :
      (id action payload : Text)
      → lacks b':' id ≡ true
      → lacks b':' action ≡ true
      → has_key row_key (key_text id action payload) out ≡ true
      → is_listed out id action payload ≡ true
  has_key-is_listed id action payload hi ha h =
      let (o, m, same) = any-Mem (λ p. text_eq (key_text id action payload) (row_key p)) out h in
      let (hi', ha') = All-Mem IsPlainRow o out plain m in
      Mem-any (is_row id action payload) o out m
        (key_text-is_row id action payload o hi ha hi' ha' same)
