-- ===== src/Ledger/Discovery/Registered.antt =====
-- What `discoveredCalls` of api/src/magi-backend.ts finds.
use mathlib.Core.List.{Memᴰ}
use lasse_cash_migration_to.Prelude.{
  text_eq_sym, All-append, ◌∷◌, ◌++◌, [], ℕ, ◌≡◌, refl, inl, inr, Bool, true, false, not, ◌&&◌,
  ◌||◌, Option, none, some, List, arith, leb, Bool-cases, length, All, Text, text_eq,
}
use lasse_cash_migration_to.Prelude.Members.{All-self}
use lasse_cash_migration_to.Ledger.Transactions.{ChainOp, ChainTx, is_failed}
use lasse_cash_migration_to.Ledger.Discovery.{
  Found, Wanted, target_of, key_of, has, push, push_ops, push_tx, push_txs, discovered_calls,
}

-- No key stands twice.
abbrev pub distinct : List Found → Bool
distinct [] = true
distinct (f ∷ found) = not (has (key_of f) found) && distinct found

has-append :
    (key : Text) (found : List Found) (f : Found)
    → has key (found ++ f ∷ []) ≡ (has key found || text_eq key (key_of f))
has-append key [] f = ground arith
has-append key (g ∷ found) f = ground (arith, has-append key found f)

distinct-append :
    (found : List Found) (f : Found)
    → distinct found ≡ true
    → has (key_of f) found ≡ false
    → distinct (found ++ f ∷ []) ≡ true
distinct-append [] f h fresh = refl
distinct-append (g ∷ found) f h fresh =
    let apart : text_eq (key_of g) (key_of f) ≡ false =
      elim (Bool-cases (text_eq (key_of g) (key_of f))) [
        | inr differs ↦ differs
        | inl same ↦ let back = text_eq_sym (key_of g) (key_of f) same in absurd (ground arith)
      ] in
    ground (arith, has-append (key_of g) found f, distinct-append found f)

module _ (wanted : Wanted) (accept : Text → Bool) (limit : ℕ) (txs : List ChainTx) where
  -- An operation of a transaction that did not fail registers it.
  abbrev pub IsRegistered : Found → Type 0
  IsRegistered f =
      (tx : ChainTx) × Memᴰ tx txs
      × (is_failed tx ≡ false)
      × ((op : ChainOp) × Memᴰ op tx.ops × (target_of wanted accept tx op ≡ some f))

  abbrev pub IsFine : List Found → Type 0
  IsFine found = All IsRegistered found × (distinct found ≡ true)

  push-IsFine :
      (target : Option Found) (found : List Found)
      → ((f : Found) → target ≡ some f → IsRegistered f)
      → IsFine found
      → IsFine (push target found)
  push-IsFine none found registered fine = fine
  push-IsFine (some f) found registered (regs, apart) = elim (Bool-cases (has (key_of f) found)) [
    | inl seen ↦ rw seen (regs, apart)
    | inr fresh ↦ rw fresh (
      All-append IsRegistered found (f ∷ []) regs (registered f refl, tt),
      distinct-append found f apart fresh,
    )
  ]

  push_ops-IsFine :
      (tx : ChainTx) (ops : List ChainOp) (found : List Found)
      → Memᴰ tx txs
      → is_failed tx ≡ false
      → All (λ op. Memᴰ op tx.ops) ops
      → IsFine found
      → IsFine (push_ops wanted accept limit tx ops found)
  push_ops-IsFine tx [] found m h ms fine = fine
  push_ops-IsFine tx (op ∷ ops) found m h ms fine =
      push_ops-IsFine tx ops (push (target_of wanted accept tx op) found) m h ms.1
        (push-IsFine (target_of wanted accept tx op) found (λ f e. (tx, m, h, (op, ms.0, e))) fine)

  push_tx-IsFine :
      (tx : ChainTx) (found : List Found)
      → Memᴰ tx txs
      → IsFine found
      → IsFine (push_tx wanted accept limit tx found)
  push_tx-IsFine tx found m fine = elim (Bool-cases (is_failed tx)) [
    | inl failed ↦ rw failed fine
    | inr fair ↦ rw fair (push_ops-IsFine tx tx.ops found m fair (All-self tx.ops) fine)
  ]

  push_txs-IsFine :
      (todo : List ChainTx) (found : List Found)
      → All (λ tx. Memᴰ tx txs) todo
      → IsFine found
      → IsFine (push_txs wanted accept limit todo found)
  push_txs-IsFine [] found ms fine = fine
  push_txs-IsFine (tx ∷ todo) found ms fine =
      let more = push_tx wanted accept limit tx found in
      let here = push_tx-IsFine tx found ms.0 fine in
      elim (Bool-cases (not (is_failed tx) && leb limit (length more))) [
        | inl full ↦ rw full here
        | inr room ↦ rw room (push_txs-IsFine todo more ms.1 here)
      ]

  -- Whatever is discovered is registered by a call of a transaction that did not fail, or voted on in
  -- one where posts are looked for; and nothing is discovered twice.
  pub discovered_calls-IsFine : IsFine (discovered_calls wanted accept limit txs)
  unfolding discovered_calls
  discovered_calls-IsFine = push_txs-IsFine txs [] (All-self txs) (tt, refl)
