-- ===== src/Market/Entry.antt =====
-- One pool call of the ledger, and the reserve changes that the contract's answer reports
-- (`reservePrice`, `parseLedgerEntry`, `utcIso` of api/src/market.ts, `canonicalAction` of types.ts).
use lasse_cash_migration_to.Prelude.{
  ℕ, ◌-◌, Bool, true, false, not, ◌&&◌, ◌||◌, Option, none, some, List, [], ◌∷◌, ◌++◌, Text, codes,
  text_eq, is_digit, split, any, drop, length, ◌==◌, if◌then◌else◌, ℤ, pos, neg_ℕ, ltb_ℤ, ◌*ℤ◌,
  quot, nat_abs,
}
use lasse_cash_migration_to.Prelude.Decimal.{digits_value, is_digits}
use lasse_cash_migration_to.Amount.{unit}

pub data TradeType : Type 0 where
  buy sell add remove : TradeType

-- `PoolLedgerEntry`, with the fields of `PoolOp`.
pub record PoolLedgerEntry : Type 0 where
  pub time : Text
  pub height : ℕ
  pub action : Text
  pub payload : Text
  pub signer : Text
  pub tx_id : Text
  pub ok : Bool
  pub ret : Text

-- What `parseLedgerEntry` returns.
pub record Delta : Type 0 where
  pub type : TradeType
  pub lc : ℤ
  pub hbd : ℤ
  pub d_lc : ℤ
  pub d_hbd : ℤ

-- `hbd / lc`, scaled by 1e8 and rounded down.
unfoldable pub reserve_price : ℤ → ℤ → ℤ
reserve_price lc hbd =
    if not (ltb_ℤ (pos 0) lc) || not (ltb_ℤ (pos 0) hbd)
    then pos 0
    else quot (hbd *ℤ pos unit) (nat_abs lc)

-- The swap names before and after the rename.
unfoldable pub canonical_action : Text → Text
canonical_action action =
    if text_eq action (codes "swap_lc_hbd")
    then codes "swap_lassecash_hbd"
    else if text_eq action (codes "swap_hbd_lc")
    then codes "swap_hbd_lassecash"
    else action

-- The text behind a fixed beginning.
unfoldable pub strip : Text → Text → Option Text
strip [] s = some s
strip (c ∷ p) [] = none
strip (c ∷ p) (d ∷ s) = if c == d then strip p s else none

-- The leading digits and what follows them: the group `(\d+)` before a character that is no digit.
unfoldable pub span_digits : Text → Text × Text
span_digits [] = ([], [])
span_digits (c ∷ s) =
    let rest = span_digits s in if is_digit c then (c ∷ rest.0, rest.1) else ([], c ∷ s)

-- `^<prefix>(\d+)`: the number, and the rest of the text.
unfoldable pub number_after : Text → Text → Option (ℕ × Text)
unfolding strip span_digits
number_after prefix s = elim (strip prefix s) [
  | none ↦ none
  | some t ↦
      let (digits, rest) = span_digits t in
      if is_digits digits then some (digits_value digits, rest) else none
]

-- `^<prefix>(\d+)<suffix>$`
unfoldable pub number_between : Text → Text → Text → Option ℕ
unfolding number_after
number_between prefix suffix s = elim (number_after prefix s) [
  | none ↦ none
  | some (n, rest) ↦ if text_eq rest suffix then some n else none
]

-- ` (?:LC|LASSECASH) and (\d+) HBD` behind the first number, with what follows.
unfoldable pub and_hbd : Text → Option (ℕ × Text)
unfolding number_after
and_hbd rest = elim (number_after (codes " LC and ") rest) [
  | some found ↦ some found
  | none ↦ number_after (codes " LASSECASH and ") rest
]

-- `^<prefix>(\d+) (?:LC|LASSECASH) and (\d+) HBD$`
unfoldable pub both_sides : Text → Text → Option (ℕ × ℕ)
unfolding number_after and_hbd
both_sides prefix s = elim (number_after prefix s) [
  | none ↦ none
  | some (lc, rest) ↦ elim (and_hbd rest) [
    | none ↦ none
    | some (hbd, rest') ↦ if text_eq rest' (codes " HBD") then some (lc, hbd) else none
  ]
]

-- The labels of the `switch`; any other action is the `default`.
pub data Label : Type 0 where
  swap_lassecash_hbd swap_hbd_lassecash add_liquidity remove_liquidity other : Label

unfoldable pub label_of : Text → Label
label_of action =
    if text_eq action (codes "swap_lassecash_hbd")
    then swap_lassecash_hbd
    else if text_eq action (codes "swap_hbd_lassecash")
    then swap_hbd_lassecash
    else if text_eq action (codes "add_liquidity")
    then add_liquidity
    else if text_eq action (codes "remove_liquidity")
    then remove_liquidity
    else other

abbrev is_swap : Label → Bool
is_swap swap_lassecash_hbd = true
is_swap swap_hbd_lassecash = true
is_swap _ = false

-- The cases of the `switch`, on the first argument and the contract's answer.
unfoldable pub read_answer : Label → ℕ → Text → Option Delta
read_answer swap_lassecash_hbd arg ret =
    elim (number_between (codes "swapped for ") (codes " HBD") ret) [
      | none ↦ none
      | some n ↦
          some (record { type = sell; lc = pos arg; hbd = pos n; d_lc = pos arg; d_hbd = neg_ℕ n })
    ]
read_answer swap_hbd_lassecash arg ret =
    elim (number_between (codes "swapped for ") (codes " LASSECASH") ret) [
      | none ↦ none
      | some n ↦
          some (record { type = buy; lc = pos n; hbd = pos arg; d_lc = neg_ℕ n; d_hbd = pos arg })
    ]
read_answer add_liquidity arg ret = elim (both_sides (codes "added ") ret) [
  | none ↦ none
  | some (n, m) ↦ some (record { type = add; lc = pos n; hbd = pos m; d_lc = pos n; d_hbd = pos m })
]
read_answer remove_liquidity arg ret = elim (both_sides (codes "withdrew ") ret) [
  | none ↦ none
  | some (n, m) ↦
      some (record { type = remove; lc = pos n; hbd = pos m; d_lc = neg_ℕ n; d_hbd = neg_ℕ m })
]
read_answer other arg ret = none

-- `payload.split("|")[0] ?? ""`
abbrev pub first_or_empty : List Text → Text
first_or_empty [] = []
first_or_empty (p ∷ ps) = p

unfoldable pub parse_ledger_entry : PoolLedgerEntry → Option Delta
parse_ledger_entry e =
    let arg0 = first_or_empty (split b'|' e.payload) in
    let label = label_of (canonical_action e.action) in
    if not e.ok
    then none
    else if not (is_digits arg0) && is_swap label
    then none
    else read_answer label (digits_value arg0) e.ret

abbrev is_sign : ℕ → Bool
is_sign c = c == b'+' || c == b'-'

-- `[+-]\d\d:\d\d`, on the last six characters.
abbrev is_offset : Text → Bool
is_offset (s ∷ a ∷ b ∷ c ∷ d ∷ e ∷ []) =
    is_sign s && is_digit a && is_digit b && c == b':' && is_digit d && is_digit e
is_offset _ = false

unfoldable pub utc_iso : Text → Text
utc_iso ts =
    if any (λ c. c == b'z' || c == b'Z') ts || is_offset (drop (length ts - 6) ts)
    then ts
    else ts ++ b'Z' ∷ []
