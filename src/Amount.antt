-- ===== src/Amount.antt =====
-- api/src/amount.ts: amounts as decimal texts, and the conversion to and from base units.
-- An `Amount` is a text of code units, a `bigint` an integer, and a call that may throw a `Result`.
pub mod Parse
pub mod RoundTrip
pub mod Arith
pub mod Display
mod Tests
use lasse_cash_migration_to.Prelude.{
  ℕ, ◌+◌, ◌*◌, ◌/◌, ◌%◌, Bool, true, false, not, ◌&&◌, List, [], ◌∷◌, ◌++◌, Text, codes, is_digit,
  trim, split, starts_with, pad_start, take, drop, replicate, ltb, if◌then◌else◌, ℤ, pos, negsuc,
  neg_ℕ, nat_abs, ltb_ℤ, is_neg, eqb_ℤ, ◌+ℤ◌, ◌-ℤ◌, Result, ok, err, ◌>>=◌,
}
use lasse_cash_migration_to.Prelude.Decimal.{digits_value, is_digits, print}

abbrev pub Amount : Type 0
Amount = Text

-- What `toUnits` and `toBaseUnitArg` throw.
pub data Error : Type 0 where
  invalid_amount : Text → Error
  negative_amount : Error

abbrev pub unit : ℕ
unit = 100_000_000

abbrev pub decimals : ℕ
decimals = 8

-- `^\d+(\.\d+)?$`, on the parts between the dots.
abbrev pub is_decimal : List Text → Bool
is_decimal [] = false
is_decimal (whole ∷ []) = is_digits whole
is_decimal (whole ∷ frac ∷ []) = is_digits whole && is_digits frac
is_decimal (whole ∷ frac ∷ more ∷ parts) = false

-- `const [whole = "0", frac = ""] = parts`, and the value of the two parts.
abbrev pub whole_of : List Text → Text
whole_of [] = b'0' ∷ []
whole_of (whole ∷ parts) = whole

abbrev pub frac_of : List Text → Text
frac_of [] = []
frac_of (whole ∷ []) = []
frac_of (whole ∷ frac ∷ parts) = frac

abbrev pub padded_of : Text → Text
padded_of frac = take decimals (frac ++ replicate decimals b'0')

abbrev pub units_of : List Text → ℕ
units_of parts = digits_value (whole_of parts) * unit + digits_value (padded_of (frac_of parts))

-- What follows the sign.
abbrev pub body_of : Text → Text
body_of s = if starts_with (b'-' ∷ []) s then drop 1 s else s

unfoldable pub to_units : Amount → Result Error ℤ
to_units amount =
    let s = trim amount in
    let parts = split b'.' (body_of s) in
    if is_decimal parts
    then ok (if starts_with (b'-' ∷ []) s then neg_ℕ (units_of parts) else pos (units_of parts))
    else err (invalid_amount amount)

-- `neg ? "-" : ""`
abbrev pub sign_of : ℤ → Text
sign_of units = if is_neg units then b'-' ∷ [] else []

unfoldable pub from_units : ℤ → Amount
from_units units =
    let v = nat_abs units in
    sign_of units ++ (print (v / unit) ++ b'.' ∷ pad_start decimals b'0' (print (v % unit)))

unfoldable pub normalize : Amount → Result Error Amount
normalize amount = do ok (from_units (← to_units amount))

unfoldable pub compare : Amount → Amount → Result Error ℤ
compare a b = do
  x ← to_units a
  y ← to_units b
  ok (if ltb_ℤ x y then negsuc 0 else if ltb_ℤ y x then pos 1 else pos 0)

unfoldable pub is_zero : Amount → Result Error Bool
is_zero a = do ok (eqb_ℤ (← to_units a) (pos 0))

unfoldable pub is_positive : Amount → Result Error Bool
is_positive a = do ok (ltb_ℤ (pos 0) (← to_units a))

-- `amounts.reduce((acc, a) => acc + toUnits(a), acc)`
unfoldable pub sum_from : ℤ → List Amount → Result Error ℤ
sum_from acc [] = ok acc
sum_from acc (a ∷ amounts) = do x ← to_units a; sum_from (acc +ℤ x) amounts

unfoldable pub add : List Amount → Result Error Amount
unfolding sum_from
add amounts = do ok (from_units (← sum_from (pos 0) amounts))

unfoldable pub subtract : Amount → Amount → Result Error Amount
subtract a b = do x ← to_units a; y ← to_units b; ok (from_units (x -ℤ y))

-- `toLocaleString` groups the digits of the whole part: a parameter.
module _ (to_locale_string : Text → Text) where
  unfoldable pub format : Amount → ℕ → Bool → Result Error Text
  format amount places group = do
    units ← to_units amount
    let v = nat_abs units
    let whole = print (v / unit)
    let frac = take places (pad_start decimals b'0' (print (v % unit)))
    let whole_out = if group then to_locale_string whole else whole
    ok (sign_of units ++ (whole_out ++ (if ltb 0 places then b'.' ∷ frac else [])))

  unfoldable pub format_multiplier : Amount → ℕ → Result Error Text
  unfolding format
  format_multiplier m places = do ok ((← format m places false) ++ b'x' ∷ [])

  unfoldable pub format_percent : Amount → ℕ → Result Error Text
  unfolding format
  format_percent p places = do ok ((← format p places false) ++ b'%' ∷ [])

unfoldable pub to_base_unit_arg : Text → Result Error Text
to_base_unit_arg input = do
  units ← to_units input
  if is_neg units then err negative_amount else ok (print (nat_abs units))
