-- ===== src/Signer/Calls.antt =====
-- api/src/aioha-signer.ts and api/src/types.ts: a contract call, its intent, a transaction's result, and
-- the HBD that a call can draw.
use lasse_cash_migration_to.Prelude.{
  contains, get_elem?, ◌∷◌, [], ℕ, ◌+◌, ◌-◌, ◌/◌, Bool, false, not, ◌&&◌, ◌||◌, Option, none, some,
  List, if◌then◌else◌, last?, Text, codes, split,
}

-- `Math.ceil(n / d)`
abbrev pub ceil_div : ℕ → ℕ → ℕ
ceil_div n d = (n + (d - 1)) / d

-- A `transfer.allow` intent of HBD, by its limit.
pub record Intent : Type 0 where
  pub limit : Text

-- A call as it is put into a transaction; one without a contract goes to the signer's own.
pub record Call : Type 0 where
  pub action : Text
  pub payload : Text
  pub rc_limit : ℕ
  pub intents : List Intent
  pub contract_id : Option Text

-- `TxResult`. Nothing here reads the height, which is 0 in every result of this code.
pub record TxResult : Type 0 where
  pub accepted : Bool
  pub msg : Text
  pub tx_id : Option Text

abbrev pub refusal : Text → TxResult
refusal msg = record { accepted = false; msg = msg; tx_id = none }

-- What the node's dry run says of a call, when it answers.
pub data Simulated : Type 0 where
  passes : ℕ → Simulated
  refuses : Text → Bool → Simulated

-- One row of the node's answer: success, gas and error message.
pub record SimulatedRow : Type 0 where
  pub success : Bool
  pub err_msg : Option Text
  pub gas_used : ℕ

-- `/gas_limit|cost limit/i`
abbrev pub hits_gas_limit : Text → Bool
hits_gas_limit msg = contains (codes "gas_limit") msg || contains (codes "cost limit") msg

abbrev pub message_or : Text → Option Text → Text
message_or default none = default
message_or default (some msg) = msg

-- A refusal with the node's words, or the default ones.
abbrev pub refused : Text → Option Text → Simulated
refused default err_msg = let msg = message_or default err_msg in refuses msg (hits_gas_limit msg)

abbrev pub read_last : Option SimulatedRow → Option Simulated
read_last none = none
read_last (some row) =
    some (if row.success then passes row.gas_used else refused (codes "refused") row.err_msg)

-- The rows of a dry run, with or without a call ahead of the user's; `none` where it throws.
unfoldable pub read_simulation : Bool → List SimulatedRow → Option Simulated
read_simulation precall [] = none
read_simulation precall (first ∷ rows) =
    if precall && not first.success
    then some (refused (codes "the allowance call was refused") first.err_msg)
    else read_last (last? (first ∷ rows))

-- `s.split("|")[i]`
abbrev pub arg : Text → ℕ → Option Text
arg args i = get_elem? (split b'|' args) i
