-- ===== src/Ledger/Discovery.antt =====
-- api/src/magi-backend.ts: `discoveredCalls`, the posts and comments that the transactions register.
pub mod Registered
use lasse_cash_migration_to.Prelude.{
  get_elem?, is_empty, ◌∷◌, ◌++◌, [], ℕ, zero, suc, ◌+◌, ◌-◌, ◌*◌, ◌/◌, ◌%◌, ◌^◌, ◌≤◌, ◌<◌, ◌≡◌,
  refl, sym, ap, ◌∙◌, subst, ◌↔◌, ◌⊎◌, inl, inr, Bool, true, false, not, ◌&&◌, ◌||◌, Option, none,
  some, List, map, reverse, arith, ltb, leb, ◌==◌, if◌then◌else◌, Bool-cases, Result, ok, err,
  ◌>>=◌, length, take, drop, filter, find?, all, any, last?, All, ℤ, pos, negsuc, neg_ℕ, nat_abs,
  ltb_ℤ, eqb_ℤ, is_neg, ◌+ℤ◌, ◌-ℤ◌, ◌*ℤ◌, ◌≤ℤ◌, quot, Text, codes, text_eq, is_digit, trim, split,
  starts_with, pad_start, replicate, is_space, Option-cases, int_laws,
}
use lasse_cash_migration_to.Ledger.Transactions.{
  ChainOp, ChainTx, text_or, is_call, is_failed, first_auth,
}

pub record Found : Type 0 where
  pub author : Text
  pub permlink : Text
  pub payload : Text

-- Which calls are looked for.
pub data Wanted : Type 0 where
  posts : Wanted
  comments : Wanted

abbrev pub action_name : Wanted → Text
action_name posts = codes "post"
action_name comments = codes "comment"

-- `payload.split("|")[i]`
abbrev pub part : Text → ℕ → Option Text
part payload i = get_elem? (split b'|' payload) i

abbrev pub nonempty : Option Text → Option Text
nonempty none = none
nonempty (some s) = if is_empty s then none else some s

abbrev pub found_of : Option Text → Option Text → Text → Option Found
found_of none permlink payload = none
found_of (some author) none payload = none
found_of (some author) (some permlink) payload =
    some (record { author = author; permlink = permlink; payload = payload })

-- A vote registers its target, where posts are looked for.
abbrev pub by_vote : Wanted → ChainOp → Text → Option Found
by_vote comments op payload = none
by_vote posts op payload =
    if text_eq (text_or [] op.action) (codes "vote")
    then found_of (nonempty (part payload 0)) (nonempty (part payload 1)) payload
    else none

-- What one operation registers, with what `accept` says of its payload.
unfoldable pub target_of : Wanted → (Text → Bool) → ChainTx → ChainOp → Option Found
target_of wanted accept tx op =
    let payload = text_or [] op.payload in
    if not (is_call op)
    then none
    else if text_eq (text_or [] op.action) (action_name wanted)
    then if accept payload
      then found_of (nonempty (first_auth tx.required_auths tx.required_posting_auths))
          (nonempty (part payload 0)) payload
      else none
    else by_vote wanted op payload

abbrev pub key_of : Found → Text
key_of f = f.author ++ b'/' ∷ f.permlink

abbrev pub has : Text → List Found → Bool
has key found = any (λ f. text_eq key (key_of f)) found

-- `seen` holds the keys of `found`.
abbrev pub push : Option Found → List Found → List Found
push none found = found
push (some f) found = if has (key_of f) found then found else found ++ f ∷ []

module _ (wanted : Wanted) (accept : Text → Bool) (limit : ℕ) where
  abbrev pub push_ops : ChainTx → List ChainOp → List Found → List Found
  push_ops tx [] found = found
  push_ops tx (op ∷ ops) found = push_ops tx ops (push (target_of wanted accept tx op) found)

  abbrev pub push_tx : ChainTx → List Found → List Found
  push_tx tx found = if is_failed tx then found else push_ops tx tx.ops found

  abbrev pub push_txs : List ChainTx → List Found → List Found
  push_txs [] found = found
  push_txs (tx ∷ txs) found =
      let more = push_tx tx found in
      let rest = push_txs txs more in
      if not (is_failed tx) && leb limit (length more) then more else rest

  -- `discoveredCalls`
  unfoldable pub discovered_calls : List ChainTx → List Found
  discovered_calls txs = push_txs txs []
