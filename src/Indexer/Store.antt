-- ===== src/Indexer/Store.antt =====
-- `IndexedTx`, and the interface `IndexStore` with the laws that its comments state.
use lasse_cash_migration_to.Prelude.{
  ℕ, ◌≡◌, Bool, true, Option, some, List, Text, text_eq, if◌then◌else◌, All,
}

-- One call of a transaction: `{ type, data: { action?, payload? } | null }`.
pub record TxOp : Type 0 where
  pub type : Text
  pub action : Option Text
  pub payload : Option Text

pub record IndexedTx : Type 0 where
  pub id : Text
  pub anchr_height : ℕ
  pub anchr_ts : Text
  pub status : Text
  pub required_auths : List Text
  pub required_posting_auths : List Text
  pub ops : List TxOp

pub record IndexStore : Type 1 where
  pub State : Type 0
  -- Is a transaction of this id stored?
  pub has : State → Text → Bool
  -- Membership in the set that `known(ids)` returns.
  pub known : State → List Text → Text → Bool
  pub upsert : State → List IndexedTx → State
  pub get_meta : State → Text → Option Text
  pub set_meta : State → Text → Text → State
  -- A known id is stored.
  pub known-has : (s : State) (ids : List Text) (i : Text) → known s ids i ≡ true → has s i ≡ true
  -- An upsert stores every transaction, and keeps what is stored and the meta entries.
  pub upsert-has :
      (s : State) (txs : List IndexedTx) → All (λ t. has (upsert s txs) t.id ≡ true) txs
  pub upsert-keeps :
      (s : State) (txs : List IndexedTx) (i : Text) → has s i ≡ true → has (upsert s txs) i ≡ true
  pub upsert-meta :
      (s : State) (txs : List IndexedTx) (k : Text) → get_meta (upsert s txs) k ≡ get_meta s k
  -- A meta entry is read back, beside the others, and touches no transaction.
  pub set_meta-has : (s : State) (k v i : Text) → has (set_meta s k v) i ≡ has s i
  pub set_meta-meta :
      (s : State) (k v j : Text)
      → get_meta (set_meta s k v) j ≡ (if text_eq k j then some v else get_meta s j)
