-- ===== src/Signer/Wallet.antt =====
-- api/src/aioha-signer.ts: what `AiohaWallet` and `AiohaSigner` hand to the wallet program, and how its
-- reply is read. `JSON.stringify` of a list of fields is a parameter.
use lasse_cash_migration_to.Prelude.{
  without_prefix, ◌∷◌, ◌++◌, [], ℕ, Bool, not, ◌&&◌, Option, none, some, List, map, ◌==◌,
  if◌then◌else◌, Result, ok, err, ◌>>=◌, any, pos, Text, codes, starts_with,
}
use lasse_cash_migration_to.Prelude.Decimal.{print}
use lasse_cash_migration_to.Signer.Calls.{message_or, Intent, Call, TxResult, refusal}
use lasse_cash_migration_to.Signer.Tables.{KeyType, posting, active, table_limit}
use lasse_cash_migration_to.Signer.Sizing.{is_amount, Wallet, size_rc}
use lasse_cash_migration_to.Signer.Bundle.{Rider, sized_side_calls, milli_text}
use lasse_cash_migration_to.Signer.Reason.{hive_reason}

-- The reply of the wallet program: its result is the transaction's id.
pub record Reply : Type 0 where
  pub success : Bool
  pub result : Option Text
  pub error : Option Text

-- The end of `#broadcast`.
unfoldable pub broadcast_result : Reply → TxResult
broadcast_result r = record {
  accepted = r.success;
  msg = if r.success then codes "submitted" else hive_reason r.error;
  tx_id = if r.success then r.result else none;
}

-- The end of `submit` for a call by itself.
unfoldable pub lone_result : Reply → TxResult
lone_result r = record {
  accepted = r.success;
  msg = if r.success then message_or (codes "submitted") r.result else hive_reason r.error;
  tx_id = if r.success then r.result else none;
}

-- `qualifyAuth`
abbrev pub qualify_auth : Text → Text
qualify_auth account = if any (λ c. c == b':') account then account else codes "hive:" ++ account

-- `#readRc`, from the amount and the most that the node answers, if it does.
abbrev pub read_rc : Option (ℕ × ℕ) → Option ℕ
read_rc none = none
read_rc (some (amount, max_rcs)) = if max_rcs == 0 then none else some amount

-- `#vscOp`: the operation of a call.
pub record VscOp : Type 0 where
  pub required_auths : List Text
  pub required_posting_auths : List Text
  pub contract_id : Text
  pub call : Call

abbrev pub auths_of : KeyType → Text → List Text × List Text
auths_of active user = (user ∷ [], [])
auths_of posting user = ([], user ∷ [])

abbrev pub contract_or : Text → Option Text → Text
contract_or contract none = contract
contract_or contract (some own) = own

unfoldable pub vsc_op : Text → Text → KeyType → Call → VscOp
vsc_op user contract key call =
    let (required, required_posting) = auths_of key user in
    record {
      required_auths = required;
      required_posting_auths = required_posting;
      contract_id = contract_or contract call.contract_id;
      call = call;
    }

-- The operations of `broadcastCalls` for a user who is signed in.
unfoldable pub broadcast_ops : Text → Text → KeyType → List Call → List VscOp
broadcast_ops user contract key calls = map (vsc_op user contract key) calls

-- The calls of `magiSwap`: the allowance first, where one is needed.
abbrev pub swap_call : Text → List Intent → ℕ → Call
swap_call payload intents limit = record {
  action = codes "execute";
  payload = payload;
  rc_limit = limit;
  intents = intents;
  contract_id = none;
}

abbrev pub approval : Text → Text → ℕ → Call
approval contract payload limit = record {
  action = codes "increaseAllowance";
  payload = payload;
  rc_limit = limit;
  intents = [];
  contract_id = some contract;
}

unfoldable pub magi_swap_calls : Option (Text × Text × ℕ) → Text → List Intent → ℕ → List Call
magi_swap_calls none payload intents limit = swap_call payload intents limit ∷ []
magi_swap_calls (some (contract, approve, approve_limit)) payload intents limit =
    approval contract approve approve_limit ∷ swap_call payload intents limit ∷ []

-- The call and the settlements of a post or a comment.
abbrev pub register : Wallet → Text → Text → List Rider → Result TxResult (List Call)
register w action payload riders =
    size_rc w action payload [] (table_limit w.rc_limit action) >>= λ limit. ok (
      record {
        action = action;
        payload = payload;
        rc_limit = limit;
        intents = [];
        contract_id = none;
      }
      ∷ sized_side_calls w riders)

abbrev pub piped : List Text → Text
piped [] = []
piped (s ∷ []) = s
piped (s ∷ t ∷ parts) = s ++ b'|' ∷ piped (t ∷ parts)

-- `publishAndRegister` of the contract, beside the article.
unfoldable pub register_post : Wallet → Text → ℕ → ℕ → List Rider → Result TxResult (List Call)
register_post w permlink window payout_mode riders =
    register w (codes "post") (piped (permlink ∷ print window ∷ print payout_mode ∷ [])) riders

-- The parent of a comment, as the contract names it.
unfoldable pub qualified_parent : Text → Text
qualified_parent parent_author =
    let parent = without_prefix (codes "@") parent_author in
    if starts_with (codes "hive:") parent then parent else codes "hive:" ++ parent

-- `commentAndRegister` of the contract, beside the reply.
unfoldable pub register_comment :
    Wallet → Text → Text → Text → ℕ → List Rider → Result TxResult (List Call)
register_comment w permlink parent_author parent_permlink payout_mode riders =
    register w (codes "comment")
      (piped (permlink ∷ qualified_parent parent_author ∷ parent_permlink ∷ print payout_mode ∷ []))
      riders

-- The direction of a swap: LASSECASH for HBD, or HBD for LASSECASH.
pub data Direction : Type 0 where
  lc_hbd : Direction
  hbd_lc : Direction

module _ (json : List (Text × Text) → Text) where
  abbrev pub spend : Text → Text → Text
  spend spender amount =
      json ((codes "spender", codes "contract:" ++ spender) ∷ (codes "amount", amount) ∷ [])

  -- The calls of `seedNativePool` for a user who is signed in, or its refusal.
  abbrev pub seed_calls : Text → Text → Text → Text → ℕ → List Call
  seed_calls token user pool lc_base_units hbd_milli =
      approval token (spend pool lc_base_units) 1_500
      ∷ record {
        action = codes "add_liquidity";
        payload = json (
            (codes "amount0", print hbd_milli)
            ∷ (codes "amount1", lc_base_units)
            ∷ (codes "recipient", codes "hive:" ++ user)
            ∷ (codes "min_lp_out", codes "0")
            ∷ []);
        rc_limit = 4_000;
        intents = record { limit = milli_text (pos hbd_milli) } ∷ [];
        contract_id = some pool;
      }
      ∷ []

  unfoldable pub seed_native_pool :
      Option Text → Option Text → Text → Text → ℕ → Result TxResult (List Call)
  seed_native_pool none user pool lc_base_units hbd_milli =
      err (refusal (codes "token contract unknown"))
  seed_native_pool (some token) none pool lc_base_units hbd_milli =
      err (refusal (codes "not signed in"))
  seed_native_pool (some token) (some user) pool lc_base_units hbd_milli =
      if is_amount lc_base_units && not (hbd_milli == 0)
      then ok (seed_calls token user pool lc_base_units hbd_milli)
      else err (refusal (codes "amounts must be positive"))

  abbrev router : Text
  router = codes "vsc1Brvi4YZHLkocYNAFd7Gf1JpsPjzNnv4i45"

  abbrev asset_in : Direction → Text
  asset_in lc_hbd = codes "LASSECASH"
  asset_in hbd_lc = codes "HBD"

  abbrev asset_out : Direction → Text
  asset_out lc_hbd = codes "HBD"
  asset_out hbd_lc = codes "LASSECASH"

  abbrev swap_intents : Direction → ℕ → List Intent
  swap_intents lc_hbd amount = []
  swap_intents hbd_lc amount = record { limit = milli_text (pos amount) } ∷ []

  abbrev pub native_swap : Text → Direction → ℕ → ℕ → Call
  native_swap user direction amount_in min_out = record {
    action = codes "execute";
    payload = json (
        (codes "type", codes "swap")
        ∷ (codes "version", codes "1.0.0")
        ∷ (codes "asset_in", asset_in direction)
        ∷ (codes "asset_out", asset_out direction)
        ∷ (codes "amount_in", print amount_in)
        ∷ (codes "min_amount_out", print min_out)
        ∷ (codes "recipient", codes "hive:" ++ user)
        ∷ []);
    rc_limit = 4_000;
    intents = swap_intents direction amount_in;
    contract_id = some router;
  }

  abbrev pub native_calls : Direction → Option Text → Call → ℕ → Result TxResult (List Call)
  native_calls hbd_lc token swap amount_in = ok (swap ∷ [])
  native_calls lc_hbd none swap amount_in = err (refusal (codes "token contract unknown"))
  native_calls lc_hbd (some token) swap amount_in =
      ok (approval token (spend router (print amount_in)) 1_500 ∷ swap ∷ [])

  -- The calls of `swapNativePool`, of amounts that are not negative.
  unfoldable pub swap_native_pool :
      Option Text → Option Text → Direction → ℕ → ℕ → Result TxResult (List Call)
  swap_native_pool token none direction amount_in min_out = err (refusal (codes "not signed in"))
  swap_native_pool token (some user) direction amount_in min_out =
      if amount_in == 0
      then err (refusal (codes "amount must be positive"))
      else native_calls direction token (native_swap user direction amount_in min_out) amount_in
