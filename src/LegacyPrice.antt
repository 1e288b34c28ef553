-- ===== src/LegacyPrice.antt =====
-- api/src/legacy-price.ts: scaled decimals and the value of a holding in dollars, on amounts that are
-- not negative. Fetching the two prices is left out.
pub mod Value
mod Tests
use lasse_cash_migration_to.Prelude.{
  ◌∷◌, ◌++◌, [], ℕ, zero, suc, ◌+◌, ◌-◌, ◌*◌, ◌/◌, ◌%◌, ◌^◌, ◌≤◌, ◌<◌, ◌≡◌, refl, sym, ap, ◌∙◌,
  subst, ◌↔◌, ◌⊎◌, inl, inr, Bool, true, false, not, ◌&&◌, ◌||◌, Option, none, some, List, map,
  reverse, arith, ltb, leb, ◌==◌, if◌then◌else◌, Bool-cases, Result, ok, err, ◌>>=◌, length, take,
  drop, filter, find?, all, any, last?, All, ℤ, pos, negsuc, neg_ℕ, nat_abs, ltb_ℤ, eqb_ℤ, is_neg,
  ◌+ℤ◌, ◌-ℤ◌, ◌*ℤ◌, ◌≤ℤ◌, quot, Text, codes, text_eq, is_digit, trim, split, starts_with, pad_start,
  replicate, is_space, Option-cases, int_laws,
}
use lasse_cash_migration_to.Prelude.Decimal.{digits_value, print}
use lasse_cash_migration_to.Amount.{is_decimal, whole_of, frac_of}

-- What `scaled` throws.
pub data Error : Type 0 where
  not_a_decimal : Text → Error

-- `s.padEnd(n, c)`
abbrev pub pad_end : ℕ → ℕ → Text → Text
pad_end n c s = s ++ replicate (n - length s) c

-- `(m[2] ?? "").slice(0, places).padEnd(places, "0")`
abbrev pub frac_digits : ℕ → Text → Text
frac_digits places frac = pad_end places b'0' (take places frac)

abbrev pub scaled_of : ℕ → List Text → ℕ
scaled_of places parts =
    digits_value (whole_of parts) * 10 ^ places + digits_value (frac_digits places (frac_of parts))

unfoldable pub scaled : Text → ℕ → Result Error ℕ
scaled dec places =
    let parts = split b'.' (trim dec) in
    if is_decimal parts then ok (scaled_of places parts) else err (not_a_decimal dec)

-- `s.slice(0, -places)` and `s.slice(-places)`, which cut nothing off at zero places but all of it.
abbrev pub slice_to : ℕ → Text → Text
slice_to places s = if places == 0 then [] else take (length s - places) s

abbrev pub slice_from : ℕ → Text → Text
slice_from places s = if places == 0 then s else drop (length s - places) s

unfoldable pub to_decimal : ℕ → ℕ → Text
to_decimal v places =
    let s = pad_start (places + 1) b'0' (print v) in slice_to places s ++ b'.' ∷ slice_from places s

unfoldable pub usd_value : ℕ → Text → Result Error Text
usd_value base_units usd_per_lc = do
  price ← scaled usd_per_lc 8
  ok (to_decimal (base_units * price / (10 ^ 8 * 10 ^ 6)) 2)
