-- ===== src/Client/Calls.antt =====
-- api/src/client.ts: the arguments of the client's calls, the settlements that ride along, and the
-- catch-up slices.
use lasse_cash_migration_to.Prelude.{
  is_empty, without_prefix, min, max, ◌∷◌, ◌++◌, [], ℕ, zero, suc, ◌+◌, ◌-◌, ◌*◌, ◌/◌, Bool, false,
  not, ◌&&◌, ◌||◌, Option, none, some, List, map, leb, ◌==◌, if◌then◌else◌, take, any, pos, Text,
  codes, text_eq, trim, starts_with, replicate,
}
use lasse_cash_migration_to.Prelude.BigInts.{big_int}
use lasse_cash_migration_to.Amount.{Amount, from_units}
use lasse_cash_migration_to.Signer.Bundle.{Rider}
use lasse_cash_migration_to.Signer.Calls.{ceil_div}
use lasse_cash_migration_to.Signer.Tables.{max_side_calls}
use lasse_cash_migration_to.Ledger.Calls.{Paid}

-- `args`, of texts
abbrev pub args : List Text → Text
args [] = []
args (s ∷ []) = s
args (s ∷ t ∷ parts) = s ++ b'|' ∷ args (t ∷ parts)

-- `units`; `none` where `BigInt` throws.
abbrev pub units : Option Text → Option Amount
units none = some (from_units (pos 0))
units (some raw) =
    if is_empty raw
    then some (from_units (pos 0))
    else elim (big_int raw) [ none ↦ none | some n ↦ some (from_units n) ]

abbrev pub qualify : Text → Text
qualify t = if any (λ c. c == b':') t then t else codes "hive:" ++ t

-- `[|\r\n]`
abbrev pub is_break : ℕ → Bool
is_break c = c == b'|' || c == 13 || c == 10

-- `memo.replace(/[|\r\n]+/g, " ")`, behind such a character or not.
abbrev pub break_to_space : Bool → Text → Text
break_to_space after [] = []
break_to_space after (c ∷ s) =
    let rest = break_to_space (is_break c) s in
    if is_break c then if after then rest else b' ' ∷ rest else c ∷ rest

unfoldable pub clean_memo : Text → Text
clean_memo memo = take 200 (trim (break_to_space false memo))

-- The arguments of `transfer`, with the amount in base units.
abbrev pub with_memo : Text → Text → Text → Text
with_memo dest amount memo =
    if is_empty memo then args (dest ∷ amount ∷ []) else args (dest ∷ amount ∷ memo ∷ [])

unfoldable pub transfer_args : Text → Text → Text → Text
transfer_args to amount memo =
    with_memo (qualify (without_prefix (codes "@") (trim to))) amount (clean_memo memo)

-- A post as far as its payout goes, and one to settle.
pub record Post : Type 0 where
  pub author : Text
  pub permlink : Text
  pub payable : Bool
  pub paid_out : Bool

pub record Payable : Type 0 where
  pub author : Text
  pub permlink : Text

abbrev pub put : Text → Payable → List (Text × Payable) → List (Text × Payable)
put key p [] = (key, p) ∷ []
put key p ((k, q) ∷ m) =
    let rest = put key p m in if text_eq key k then (k, p) ∷ m else (k, q) ∷ rest

abbrev pub cut : Text → List (Text × Payable) → List (Text × Payable)
cut key [] = []
cut key ((k, q) ∷ m) = let rest = cut key m in if text_eq key k then m else (k, q) ∷ rest

abbrev pub note_post : Post → List (Text × Payable) → List (Text × Payable)
note_post p m =
    let key = p.author ++ b'/' ∷ p.permlink in
    if p.payable && not p.paid_out
    then put key (record { author = p.author; permlink = p.permlink }) m
    else cut key m

-- `notePayable`
abbrev pub note_payable : List Post → List (Text × Payable) → List (Text × Payable)
note_payable [] m = m
note_payable (p ∷ ps) m = note_payable ps (note_post p m)

-- `#settlements`
abbrev pub settlement : Text × Payable → Rider
settlement (k, p) = record { entrypoint = codes "payout"; args = args (p.author ∷ p.permlink ∷ []) }

unfoldable pub settlements : List (Text × Payable) → List Rider
settlements m = map settlement (take max_side_calls m)

-- `postPayout`, from the ledger of payouts.
abbrev pub payout_key : Text → Text → Text
payout_key author permlink =
    (if starts_with (codes "hive:") author then author else codes "hive:" ++ author)
    ++ b'|' ∷ permlink

abbrev pub find_paid : Text → List (Text × Paid) → Option Paid
find_paid key [] = none
find_paid key ((k, p) ∷ m) = if text_eq key k then some p else find_paid key m

unfoldable pub post_payout : Text → Text → List (Text × Paid) → Option Paid
post_payout author permlink ledger = find_paid (payout_key author permlink) ledger

-- The slices of `#readCatchUp`, from the constants, the state, and how many chunks expire on a day.
pub record CatchUp : Type 0 where
  pub heights_per_day : ℕ
  pub expiry_chunk_size : ℕ
  pub max_retire_per_walk : ℕ
  pub genesis : ℕ
  pub acc_day : ℕ
  pub height : ℕ

-- The days from `acc_day` on, at most 64.
abbrev pub days_from : ℕ → ℕ → ℕ → List ℕ
days_from zero d today = []
days_from (suc n) d today =
    let rest = days_from n (suc d) today in if leb d today then d ∷ rest else []

abbrev pub sum_days : (ℕ → ℕ) → List ℕ → ℕ
sum_days count [] = 0
sum_days count (d ∷ ds) = count d + sum_days count ds

abbrev pub slices_of : CatchUp → ℕ → ℕ
slices_of c chunks = ceil_div (chunks * c.expiry_chunk_size) c.max_retire_per_walk + 1

abbrev pub advance : Rider
advance = record { entrypoint = codes "advance"; args = [] }

-- A height below the genesis is left out.
unfoldable pub read_catch_up : CatchUp → (ℕ → ℕ) → ℕ → List Rider
read_catch_up c count most =
    let today = (c.height - c.genesis) / c.heights_per_day in
    if c.genesis == 0 || c.heights_per_day == 0 || leb today c.acc_day
    then []
    else replicate (min most (max 1 (slices_of c (sum_days count (days_from 64 c.acc_day today)))))
        advance
