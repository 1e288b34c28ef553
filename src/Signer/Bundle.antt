-- ===== src/Signer/Bundle.antt =====
-- api/src/aioha-signer.ts: `submit`, which puts a call, the calls ahead of it and the settlements behind
-- it into one transaction, and the side calls of a post or a comment. What the wallet replies to a
-- transaction is a parameter. A vote's weight is a whole number; `Number` of any other text is left out
-- (`none`).
pub mod Carried
pub mod Allowance
use mathlib.Core.Option
use lasse_cash_migration_to.Prelude.{
  contains, without_prefix, min, ◌∷◌, ◌++◌, [], ℕ, suc, ◌-◌, ◌*◌, ◌%◌, Bool, true, false, not, ◌&&◌,
  ◌||◌, Option, none, some, List, ltb, if◌then◌else◌, Result, ok, err, length, take, ℤ, pos, negsuc,
  neg_ℕ, ◌+ℤ◌, quot, Text, codes, text_eq, pad_start,
}
use lasse_cash_migration_to.Prelude.Decimal.{print, is_digits, digits_value}
use lasse_cash_migration_to.Prelude.BigInts.{print_ℤ, big_int}
use lasse_cash_migration_to.Signer.Calls.{Intent, Call, TxResult, message_or, arg}
use lasse_cash_migration_to.Signer.Tables.{
  lookup, hbd_draw_ops, table_limit, max_side_calls, hive_custom_json_per_block,
}
use lasse_cash_migration_to.Signer.Sizing.{Wallet, size_rc, allowance_call}

-- A call that rides along, and the options of a submission.
pub record Rider : Type 0 where
  pub entrypoint : Text
  pub args : Text

pub record SubmitOptions : Type 0 where
  pub rc_limit : Option ℕ
  pub side_calls : List Rider
  pub pre_calls : List Rider

-- The Hive vote beside a vote of the contract; its weight in basis points.
pub record HiveVote : Type 0 where
  pub voter : Text
  pub author : Text
  pub permlink : Text
  pub weight : Option ℕ

-- What becomes of a submission: a refusal, the slices alone, one transaction of several operations, or
-- the call by itself.
pub data Plan : Type 0 where
  refused : TxResult → Plan
  slices : List Call → Plan
  bundle : List Call → Option HiveVote → Plan
  alone : Call → Plan

-- `a % k` on `bigint` for a positive `k`: with the sign of `a`.
abbrev pub rem : ℤ → ℕ → ℤ
rem (pos n) k = pos (n % k)
rem (negsuc n) k = neg_ℕ (suc n % k)

-- `hbdLimit`; `none` where `BigInt` throws.
abbrev pub milli_text : ℤ → Text
milli_text milli = print_ℤ (quot milli 1_000) ++ b'.' ∷ pad_start 3 b'0' (print_ℤ (rem milli 1_000))

unfoldable pub hbd_limit : Text → Option Text
hbd_limit base_units =
    Option.map (λ n. milli_text (quot (n +ℤ pos 99_999) 100_000)) (big_int base_units)

abbrev draw_intents : Option Text → Option (List Intent)
draw_intents limit = Option.map (λ l. record { limit = l } ∷ []) limit

-- The intent of a call that draws HBD, exactly as large as its argument.
unfoldable pub intents_of : Text → Text → Option (List Intent)
intents_of entrypoint args = elim (lookup entrypoint hbd_draw_ops) [
  | none ↦ some []
  | some i ↦ draw_intents (hbd_limit (message_or (codes "0") (arg args i)))
]

-- The limit of a call that rides along, and the call with its limit.
abbrev pub rider_limit : Wallet → Rider → Result TxResult ℕ
rider_limit w r = size_rc w r.entrypoint r.args [] (table_limit w.rc_limit r.entrypoint)

abbrev pub rider_call : Rider → ℕ → Call
rider_call r limit = record {
  action = r.entrypoint;
  payload = r.args;
  rc_limit = limit;
  intents = [];
  contract_id = none;
}

-- The slices up to the first one that is refused.
abbrev pub accept_slice : Rider → Result TxResult ℕ → List Call → List Call
accept_slice r (ok limit) rest = rider_call r limit ∷ rest
accept_slice r (err refusal) rest = []

abbrev pub pre_of : Wallet → List Rider → List Call
pre_of w [] = []
pre_of w (r ∷ riders) = let rest = pre_of w riders in accept_slice r (rider_limit w r) rest

-- The settlements that are not refused.
abbrev pub accept_side : Rider → Result TxResult ℕ → List Call → List Call
accept_side r (ok limit) rest = rider_call r limit ∷ rest
accept_side r (err refusal) rest = rest

abbrev pub side_of : Wallet → List Rider → List Call
side_of w [] = []
side_of w (r ∷ riders) = let rest = side_of w riders in accept_side r (rider_limit w r) rest

-- `sizedSideCalls`
unfoldable pub sized_side_calls : Wallet → List Rider → List Call
sized_side_calls w riders =
    side_of w (take (min max_side_calls (hive_custom_json_per_block - 1)) riders)

abbrev pub ahead_of : Option Call → List Call
ahead_of none = []
ahead_of (some call) = call ∷ []

-- `/accrual is behind|call advance/i`
abbrev pub asks_advance : Text → Bool
asks_advance msg = contains (codes "accrual is behind") msg || contains (codes "call advance") msg

-- `Math.max(0, Math.min(100, Number(weightPct))) * 100`
abbrev pub basis_points : Text → Option ℕ
basis_points pct = if is_digits pct then some (min 100 (digits_value pct) * 100) else none

abbrev pub hive_prefix : Text
hive_prefix = codes "hive:"

abbrev pub hive_vote : Wallet → Text → Text → Option HiveVote
hive_vote w entrypoint args =
    if text_eq entrypoint (codes "vote")
    then some (record {
      voter = without_prefix hive_prefix w.account;
      author = without_prefix hive_prefix (message_or [] (arg args 0));
      permlink = message_or [] (arg args 1);
      weight = basis_points (message_or (codes "0") (arg args 2));
    })
    else none

abbrev has_vote : Option HiveVote → Bool
has_vote none = false
has_vote (some vote) = true

abbrev pub is_none_left {ℓ} : {A : Type ℓ} → List A → Bool
is_none_left [] = true
is_none_left (x ∷ xs) = false

-- The user's own call.
abbrev pub own_call : Text → Text → List Intent → ℕ → Call
own_call entrypoint args intents limit = record {
  action = entrypoint;
  payload = args;
  rc_limit = limit;
  intents = intents;
  contract_id = none;
}

-- The plan, from the call's own limit, the calls ahead, the settlements and the Hive vote.
abbrev pub plan_of :
    Text → Text → List Intent → List Call → List Call → Option HiveVote → Result TxResult ℕ → Plan
plan_of entrypoint args intents pre side vote (err refusal) =
    if not (is_none_left pre) && asks_advance refusal.msg then slices pre else refused refusal
plan_of entrypoint args intents pre side vote (ok limit) =
    if not (is_none_left pre) || not (is_none_left side) || has_vote vote
    then bundle (pre ++ own_call entrypoint args intents limit ∷ side) vote
    else alone (own_call entrypoint args intents limit)

abbrev pub pre_slots : List Call → ℕ
pre_slots ahead = hive_custom_json_per_block - 1 - length ahead

abbrev pub pre_wanted : List Call → SubmitOptions → List Rider
pre_wanted ahead opts = take (pre_slots ahead) opts.pre_calls

abbrev pub side_wanted : List Call → SubmitOptions → List Rider
side_wanted ahead opts =
    take (min max_side_calls (pre_slots ahead - length (pre_wanted ahead opts))) opts.side_calls

abbrev pub own_limit : Wallet → Text → Option ℕ → ℕ
own_limit w entrypoint none = table_limit w.rc_limit entrypoint
own_limit w entrypoint (some limit) = limit

abbrev pub submission_with : Wallet → Text → Text → SubmitOptions → List Call → List Intent → Plan
submission_with w entrypoint args opts ahead intents =
    plan_of entrypoint args intents (ahead ++ pre_of w (pre_wanted ahead opts))
      (side_of w (side_wanted ahead opts)) (hive_vote w entrypoint args)
      (size_rc w entrypoint args intents (own_limit w entrypoint opts.rc_limit))

-- `submit`, up to what it hands to the wallet; `none` where `hbdLimit` throws.
unfoldable pub submission : Wallet → Text → Text → SubmitOptions → Option Plan
submission w entrypoint args opts =
    Option.map
      (submission_with w entrypoint args opts (ahead_of (allowance_call w entrypoint args)))
      (intents_of entrypoint args)

-- The calls that the plan hands to the wallet.
abbrev pub calls_of : Plan → List Call
calls_of (refused refusal) = []
calls_of (slices pre) = pre
calls_of (bundle calls vote) = calls
calls_of (alone call) = call ∷ []

abbrev plural : ℕ → Text
plural n = if ltb 1 n then codes "s" else []

-- What `submit` returns, from the wallet's reply.
unfoldable pub answer : Plan → TxResult → TxResult
answer (refused refusal) reply = refusal
answer (slices pre) reply =
    if reply.accepted
    then record {
      accepted = false;
      msg =
          codes "the chain is catching up on matured mints — this transaction advanced it "
          ++ print (length pre)
          ++ codes " step"
          ++ plural (length pre)
          ++ codes "; press again";
      tx_id = reply.tx_id;
    }
    else reply
answer (bundle calls vote) reply = reply
answer (alone call) reply = reply
