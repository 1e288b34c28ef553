-- ===== src/Signer/Sizing.antt =====
-- api/src/aioha-signer.ts: `drawMilli`, `allowanceCall`, `rcRefusal` and `sizeRc`. What the node, the
-- wallet and the user answer, and how the browser writes a number, are parameters. The meter counts
-- whole credits.
use lasse_cash_migration_to.Prelude.{
  contains, includes, min, max, ◌∷◌, ◌++◌, [], ℕ, ◌+◌, ◌-◌, ◌*◌, ◌/◌, ◌%◌, Bool, true, false, not,
  ◌&&◌, Option, none, some, List, ltb, if◌then◌else◌, Result, ok, err, Text, codes, text_eq, trim,
  pad_start,
}
use lasse_cash_migration_to.Prelude.Decimal.{print, is_digits, digits_value}
use lasse_cash_migration_to.Signer.Calls.{
  ceil_div, Intent, Call, TxResult, refusal, Simulated, passes, refuses, message_or, arg,
}
use lasse_cash_migration_to.Signer.Tables.{
  lookup, hbd_draw_ops, token_debit_ops, allowance_rc, gas_per_rc, rc_headroom, rc_ceiling,
  probe_margin_milli,
}

-- An amount in base units, in milli-HBD.
abbrev pub milli_of : Text → Option ℕ
milli_of raw = if is_digits raw then some (ceil_div (digits_value raw) 100_000) else none

abbrev pub draw_at : Text → Option ℕ → Option ℕ
draw_at args none = none
draw_at args (some i) = milli_of (trim (message_or [] (arg args i)))

-- Milli-HBD that the call will draw, where its argument tells.
unfoldable pub draw_milli : Text → Text → Option ℕ
draw_milli entrypoint args = draw_at args (lookup entrypoint hbd_draw_ops)

-- `entrypoint in AiohaSigner.HBD_DRAW_OPS`
abbrev pub draws_hbd : Text → Bool
draws_hbd entrypoint = elim (lookup entrypoint hbd_draw_ops) [ none ↦ false | some i ↦ true ]

-- `(n / 100).toFixed(2)`
abbrev pub hundredths : ℕ → Text
hundredths n = print (n / 100) ++ b'.' ∷ pad_start 2 b'0' (print (n % 100))

-- What is asked besides the call itself: the limit of the dry run, the call ahead of it.
pub record Probe : Type 0 where
  pub action : Text
  pub payload : Text
  pub intents : List Intent
  pub limit : Option ℕ
  pub precall : Option Call

pub record Wallet : Type 0 where
  -- What stands in the browser: `toLocaleString` and `JSON.stringify({ spender, amount })`.
  pub locale : ℕ → Text
  pub stringify : Text → Text → Text
  -- What the node says: the credits, their most, the contract of the token, a dry run (`none` where
  -- it throws).
  pub available_rc : Option ℕ
  pub max_rc : Option ℕ
  pub token_contract : Option Text
  pub simulate : Probe → Option Simulated
  -- What the user says when the meter cannot be read, where the page asks.
  pub confirm_unreadable_rc : Option (ℕ → Bool)
  -- What the signer was made with.
  pub account : Text
  pub contract_id : Text
  pub rc_limit : ℕ

-- `AiohaSigner.rcRefusal` of a need above what is available.
unfoldable pub rc_refusal : Wallet → ℕ → ℕ → TxResult
rc_refusal w needed avail =
    let head =
      codes "Needs ~"
      ++ w.locale needed
      ++ codes " credits, you have "
      ++ w.locale avail
      ++ codes ". " in
    let wait = refusal (
      head
      ++ codes "Add ~"
      ++ hundredths (ceil_div (needed - avail) 10)
      ++ codes
          " HBD on MAGI (Wallet → Move funds) to fix it at once, or wait: credits refill over 5 days.") in
    elim w.max_rc [
      | none ↦ wait
      | some most ↦
          if ltb most needed
          then refusal (
              head
              ++ codes "That is more than your meter can hold ("
              ++ w.locale most
              ++ codes "), so waiting will not help. Add ~"
              ++ hundredths (ceil_div (needed - most) 10)
              ++ codes " HBD on MAGI (Wallet → Move funds); it works at once.")
          else wait
    ]

-- An amount of digits that is not "0".
abbrev pub is_amount : Text → Bool
is_amount amount = is_digits amount && not (text_eq amount (codes "0"))

-- The `increaseAllowance` that a call needs which debits the caller's LASSECASH.
unfoldable pub allowance_call : Wallet → Text → Text → Option Call
allowance_call w entrypoint args = elim (lookup entrypoint token_debit_ops) [
  | none ↦ none
  | some i ↦ elim w.token_contract [
    | none ↦ none
    | some token ↦
        let amount = trim (message_or (codes "0") (arg args i)) in
        if is_amount amount
        then some (record {
          action = codes "increaseAllowance";
          payload = w.stringify (codes "contract:" ++ w.contract_id) amount;
          rc_limit = allowance_rc;
          intents = [];
          contract_id = some token;
        })
        else none
  ]
]

-- The limit that the dry run is given; none leaves it to the wallet.
unfoldable pub probe_limit : Wallet → Text → Text → ℕ → Option ℕ
probe_limit w entrypoint args table =
    if draws_hbd entrypoint
    then some (elim w.available_rc [
      | none ↦ table
      | some avail ↦ elim (draw_milli entrypoint args) [
        | none ↦ table
        | some draw ↦ max table (min rc_ceiling (avail - draw - probe_margin_milli))
      ]
    ])
    else none

-- The words for a call that the dry run refuses.
unfoldable pub refused_msg : Text → Text → Bool → Text
refused_msg entrypoint msg gas_limit_hit =
    if contains (codes "wasm function not found") msg
    then codes
        "This page is out of date — reload it (Ctrl+Shift+R, or Cmd+Shift+R on a Mac) and try again."
    else if gas_limit_hit
    then codes
        "this call would exceed the per-call gas ceiling — call advance first to close the accrual gap"
    else if includes (codes "Insufficient balance") msg
    then codes
        "The contract could not pay this out: its token reported too little backing. That should not happen since the 4 October fix — please report it on the LasseCash Discord. Your position is safe and recorded on chain, and nothing has been spent."
    else if draws_hbd entrypoint && contains (codes "insufficient balance") msg
    then codes "Not enough RC — hold more HBD on MAGI, it's free RC."
    else msg

-- `tableFloor`, and the least that a call of so many credits is sent with.
abbrev pub table_floor : Text → ℕ → ℕ
table_floor entrypoint table =
    if text_eq entrypoint (codes "advance") then 0 else ceil_div (table * 6) 10

abbrev pub floor_of : Text → ℕ → ℕ → ℕ
floor_of entrypoint table need = max (ceil_div (need * 13) 10) (table_floor entrypoint table)

abbrev pub sized_of : ℕ → ℕ → ℕ
sized_of table need = min rc_ceiling (max table (need * rc_headroom))

-- The draw that shares the meter with the limit, if there is one.
abbrev pub shared_draw : Text → Text → Option ℕ
shared_draw entrypoint args = if draws_hbd entrypoint then draw_milli entrypoint args else none

-- The limit beside a draw: `room < floor` is asked without the subtraction, which could fall below 0.
unfoldable pub limit_beside_draw : Wallet → ℕ → ℕ → ℕ → ℕ → Result TxResult ℕ
limit_beside_draw w avail draw floor sized =
    if ltb avail (floor + draw + probe_margin_milli)
    then err (rc_refusal w (floor + draw + probe_margin_milli) avail)
    else ok (min sized (avail - draw - probe_margin_milli))

unfoldable pub limit_within : Wallet → ℕ → ℕ → ℕ → Result TxResult ℕ
limit_within w avail floor sized =
    if ltb avail sized
    then if ltb avail floor then err (rc_refusal w floor avail) else ok avail
    else ok sized

-- The limit when the meter cannot be read: what the user says.
abbrev pub limit_unread : Option (ℕ → Bool) → ℕ → ℕ → Result TxResult ℕ
limit_unread none floor sized = ok sized
limit_unread (some confirm) floor sized =
    if confirm floor
    then ok sized
    else err (refusal (codes "Cancelled — nothing was sent, no credits used."))

-- By what is available, the draw, the floor and the size.
abbrev pub limit_when : Wallet → Option ℕ → Option ℕ → ℕ → ℕ → Result TxResult ℕ
limit_when w none draw floor sized = limit_unread w.confirm_unreadable_rc floor sized
limit_when w (some avail) none floor sized = limit_within w avail floor sized
limit_when w (some avail) (some draw) floor sized = limit_beside_draw w avail draw floor sized

-- `sizeRc` behind a dry run that passes.
unfoldable pub limit_for : Wallet → Text → Text → ℕ → ℕ → Result TxResult ℕ
limit_for w entrypoint args table need =
    limit_when w w.available_rc (shared_draw entrypoint args) (floor_of entrypoint table need)
      (sized_of table need)

-- `sizeRc` where the node could not simulate.
abbrev pub limit_blind : Wallet → Option ℕ → ℕ → Result TxResult ℕ
limit_blind w none table = ok table
limit_blind w (some avail) table =
    if ltb avail table then err (rc_refusal w table avail) else ok table

abbrev pub probe_of : Wallet → Text → Text → List Intent → ℕ → Probe
probe_of w entrypoint args intents table = record {
  action = entrypoint;
  payload = args;
  intents = intents;
  limit = probe_limit w entrypoint args table;
  precall = allowance_call w entrypoint args;
}

abbrev pub size_simulated : Wallet → Text → Text → ℕ → Option Simulated → Result TxResult ℕ
size_simulated w entrypoint args table none = limit_blind w w.available_rc table
size_simulated w entrypoint args table (some (refuses msg gas_limit_hit)) =
    err (refusal (refused_msg entrypoint msg gas_limit_hit))
size_simulated w entrypoint args table (some (passes gas)) =
    limit_for w entrypoint args table (ceil_div gas gas_per_rc)

-- `sizeRc`: the limit of a call, or the result that refuses it.
unfoldable pub size_rc : Wallet → Text → Text → List Intent → ℕ → Result TxResult ℕ
size_rc w entrypoint args intents table =
    size_simulated w entrypoint args table (w.simulate (probe_of w entrypoint args intents table))
