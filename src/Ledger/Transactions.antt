-- ===== src/Ledger/Transactions.antt =====
-- api/src/magi-backend.ts: a transaction of the node, with the fields that the queries ask for.
use lasse_cash_migration_to.Prelude.{
  get_elem?, is_empty, ◌∷◌, [], ℕ, Bool, Option, none, some, List, if◌then◌else◌, Text, codes,
  text_eq,
}

pub record ChainOp : Type 0 where
  pub type : Text
  pub action : Option Text
  pub payload : Option Text
  pub contract_id : Option Text
  pub from : Option Text
  pub to : Option Text
  pub amount : Option Text
  pub asset : Option Text

pub record ChainTx : Type 0 where
  pub id : Text
  pub anchr_ts : Text
  pub anchr_height : ℕ
  pub status : Text
  pub required_auths : List Text
  pub required_posting_auths : List Text
  pub ops : List ChainOp

-- `x ?? default` of a text.
abbrev pub text_or : Text → Option Text → Text
text_or default none = default
text_or default (some s) = s

abbrev pub is_call : ChainOp → Bool
is_call op = text_eq op.type (codes "call")

abbrev pub is_confirmed : ChainTx → Bool
is_confirmed tx = text_eq tx.status (codes "CONFIRMED")

abbrev pub is_failed : ChainTx → Bool
is_failed tx = text_eq tx.status (codes "FAILED")

-- `required_auths[0] ?? required_posting_auths[0]`
abbrev pub first_auth : List Text → List Text → Option Text
first_auth (a ∷ auths) posting = some a
first_auth [] posting = get_elem? posting 0

abbrev pub signer_of : ChainTx → Text
signer_of tx = text_or [] (first_auth tx.required_auths tx.required_posting_auths)

-- An action that a JavaScript test takes for given: there, and not empty.
abbrev pub action_of : ChainOp → Option Text
action_of op = elim op.action [
  | none ↦ none
  | some action ↦ if is_empty action then none else some action
]
