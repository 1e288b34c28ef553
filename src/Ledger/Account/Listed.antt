-- ===== src/Ledger/Account/Listed.antt =====
-- The rows that `accountOps` of api/src/magi-backend.ts lists.
use lasse_cash_migration_to.Prelude.Keys.{
  has_key, first_of_each, sort_onto, distinct-take, distinct-sort, distinct-first_of_each,
  has_key-first_of_each, All-first_of_each,
}
use lasse_cash_migration_to.Prelude.Keys.Sorted.{
  has_key-sort, All-sort, in_order, in_order-sort, in_order-take,
}
use lasse_cash_migration_to.Prelude.{
  [], ℕ, ◌≤◌, ◌≡◌, refl, sym, subst, ◌⊎◌, inl, inr, Bool, true, false, Option, List, arith,
  Bool-cases, leb, leb→le, length, length-take-le, length-take_ge, take, All, All-map, All-take,
  Text,
}
use lasse_cash_migration_to.Activity.{AccountOp}
use lasse_cash_migration_to.Ledger.Transactions.{ChainTx}
use lasse_cash_migration_to.Ledger.Account.{
  Fetched, account_ops, all_rows, incoming_of, row_key, qualified,
}
use lasse_cash_migration_to.Ledger.Account.Sources.{IsSourced, all_rows-IsSourced}
use lasse_cash_migration_to.Ledger.Account.Plain.{
  IsPlain, IsPlainRow, no_twins, IsComplete, no_twins-distinct, take_short, IsSourced-IsPlainRow,
}
use lasse_cash_migration_to.Ledger.Account.Complete.{Has-IsComplete}

abbrev pub newer : (Text → Text → Bool) → AccountOp → AccountOp → Bool
newer later a b = later a.time b.time

-- A list of the rows of these transactions: as many as asked for at most, no two alike, in the order of
-- their times, each with its source; and nothing is missing that there is room for.
abbrev pub IsListing :
    (Text → Text → Bool) → Text → List ChainTx → List ChainTx → ℕ → List AccountOp → Type 0
IsListing later me txs recent limit out =
    (length out ≤ limit)
    × (no_twins out ≡ true)
    × (in_order (newer later) out ≡ true)
    × All (IsSourced me txs recent) out
    × ((length out ≡ limit) ⊎ IsComplete me txs recent out)

module _ (later : Text → Text → Bool)
    (one_way : (s t : Text) → later s t ≡ true → later t s ≡ false) (fetch : ChainTx → Fetched)
    (account : Text) (txs : List ChainTx) (incoming : Option (List ChainTx)) where
  abbrev rows : List AccountOp
  rows = all_rows (qualified account) fetch txs incoming

  abbrev sorted : List AccountOp
  sorted = sort_onto row_key (newer later) [] (first_of_each row_key [] rows)

  kept_key : (key : Text) → has_key row_key key rows ≡ true → has_key row_key key sorted ≡ true
  kept_key key h =
      let unique = first_of_each row_key [] rows in
      let k = has_key-first_of_each row_key key [] rows h refl in
      rw (has_key-sort row_key (newer later) key unique []) k

  sorted-All {κ} : (P : AccountOp → Type κ) → All P rows → All P sorted
  sorted-All P h =
      All-sort row_key (newer later) P (first_of_each row_key [] rows) [] tt
        (All-first_of_each row_key P [] rows h)

  -- Where time is later than time one way only, and neither ids nor actions have a colon, `accountOps`
  -- lists at most as many rows as are asked for, none before a newer one behind it, no two of the same
  -- transaction, action and payload, each from a call or a move of the account's transactions or a
  -- confirmed transfer to it; and it lists exactly as many as are asked for, or a row of every call
  -- with an action, of every move, and of every confirmed transaction that transfers to the account.
  pub account_ops-IsListing :
      (limit : ℕ)
      → All IsPlain txs
      → All IsPlain (incoming_of incoming)
      → IsListing later
          (qualified account)
          txs
          (incoming_of incoming)
          limit
          (account_ops later fetch account txs incoming limit)
  unfolding account_ops
  account_ops-IsListing limit names names' =
      let me = qualified account in
      let recent = incoming_of incoming in
      let sourced = all_rows-IsSourced me fetch txs incoming in
      let plain : All IsPlainRow rows =
        All-map rows (λ o s. IsSourced-IsPlainRow me txs recent o names names' s) sourced in
      let unique = first_of_each row_key [] rows in
      let apart =
        distinct-sort row_key (newer later) unique (distinct-first_of_each row_key [] rows) in
      let order =
        in_order-sort row_key (newer later) (λ a b h. one_way a.time b.time h) unique [] refl in
      (
        (length-take-le limit sorted).0,
        no_twins-distinct (take limit sorted) (distinct-take row_key limit sorted apart),
        in_order-take (newer later) limit sorted order,
        All-take (IsSourced me txs recent) limit sorted
            (sorted-All (IsSourced me txs recent) sourced),
        elim (Bool-cases (leb limit (length sorted))) [
          | inl full ↦ inl (length-take_ge limit sorted (leb→le limit (length sorted) full))
          | inr short ↦ inr (
              subst (IsComplete me txs recent) (sym (take_short limit sorted (ground arith))) (
                Has-IsComplete me sorted (sorted-All IsPlainRow plain) fetch txs incoming names
                  plain kept_key))
        ],
      )
