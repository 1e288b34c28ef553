-- ===== src/NativePool/Price.antt =====
-- What the price of the native pool is worth.
use lasse_cash_migration_to.Prelude.{
  take-append-drop, all-parts, length-parts, length-append, length-replicate, ◌∷◌, ◌++◌, ℕ, ◌+◌,
  ◌-◌, ◌*◌, ◌/◌, ◌≤◌, ◌<◌, ◌≡◌, refl, ap, ◌∙◌, true, false, some, arith, ◌==◌, ok, length, take,
  drop, pos, Text, is_digit, pad_start, replicate,
}
use lasse_cash_migration_to.Prelude.Decimal.{
  digits_value, is_digits, print, value-print, print-digits, pad_start-digits, value-pad_start,
}
use lasse_cash_migration_to.Amount.{to_units, unit}
use lasse_cash_migration_to.Amount.Parse.{to_units_floor}
use lasse_cash_migration_to.NativePool.{NativePoolState, native_price}

abbrev padded : ℕ → Text
padded n = pad_start 9 b'0' (print n)

length-padded_ge : (n : ℕ) → 9 ≤ length (padded n)
unfolding pad_start
length-padded_ge n = omega (
  arith,
  length-append (replicate {A = ℕ} (9 - length (print n)) b'0') (print n),
  length-replicate {A = ℕ} (9 - length (print n)) b'0',
)

-- The price of a pool with something on both sides is read back as the HBD reserve over the LASSECASH
-- reserve, both in base units, scaled by 10 ^ 8 and rounded down.
pub to_units-native_price :
    (p : NativePoolState)
    → 0 < p.reserve_lc
    → 0 < p.reserve_hbd_milli
    → (s : Text) × (native_price p ≡ some s)
      × (to_units s ≡ ok (pos (p.reserve_hbd_milli * 100_000 * 100_000_000 / p.reserve_lc)))
unfolding native_price
to_units-native_price p hl hh =
    let n : ℕ = p.reserve_hbd_milli * 100_000 * 100_000_000 / p.reserve_lc in
    let no_lc : (p.reserve_lc == 0) ≡ false = ground arith in
    let no_hbd : (p.reserve_hbd_milli == 0) ≡ false = ground arith in
    (price_text n, rw (no_lc, no_hbd) refl, price_read n)
  where
    price_text : ℕ → Text
    price_text n =
        take (length (padded n) - 8) (padded n) ++ b'.' ∷ drop (length (padded n) - 8) (padded n)

    price_read : (n : ℕ) → to_units (price_text n) ≡ ok (pos n)
    price_read n =
        let s : Text = padded n in
        let k : ℕ = length s - 8 in
        let (front, back) = length-parts 8 s (omega (arith, length-padded_ge n)) in
        let (df, db) = all-parts is_digit k s (pad_start-digits 9 (print n) (print-digits n)) in
        let hf : is_digits (take k s) ≡ true = ground (arith, length-padded_ge n) in
        let hb : is_digits (drop k s) ≡ true = ground arith in
        let (u, read, low, high) = to_units_floor (take k s) (drop k s) hf hb in
        let v : digits_value (take k s ++ drop k s) ≡ n =
          ap digits_value (take-append-drop k s) ∙ value-pad_start 9 (print n) ∙ value-print n in
        let low' : u * 100_000_000 ≤ n * unit = rw (v, back) at low in
        let high' : n * unit < (u + 1) * 100_000_000 = rw (v, back) at high in
        let e : u ≡ n = omega arith in read ∙ ap (λ m. ok (pos m)) e
