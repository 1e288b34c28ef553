-- ===== src/LegacyPrice/Value.antt =====
-- What the rendered value is worth.
use lasse_cash_migration_to.Prelude.{
  take-append-drop, all-parts, length-parts, take_all, append-nil, trim_visible, split-append,
  split-lacks, length-append, length-replicate, ◌∷◌, ◌++◌, [], ℕ, ◌+◌, ◌-◌, ◌*◌, ◌/◌, ◌^◌, ◌≤◌, ◌<◌,
  ◌≡◌, refl, ap, ◌∙◌, true, false, arith, ◌==◌, ok, length, take, drop, all, Text, is_digit,
  pad_start, replicate,
}
use lasse_cash_migration_to.Prelude.Decimal.{
  digits_value, is_digits, print, value-print, print-digits, pad_start-digits, value-pad_start,
}
use lasse_cash_migration_to.Amount.Parse.{digits_value-append}
use lasse_cash_migration_to.Amount.RoundTrip.{visible_decimal, digits-lacks}
use lasse_cash_migration_to.LegacyPrice.{scaled, scaled_of, frac_digits, to_decimal, usd_value}

-- A text of digits, a dot, and as many digits as there are places.
scaled_digits :
    (places : ℕ) (w f : Text)
    → is_digits w ≡ true
    → is_digits f ≡ true
    → length f ≡ places
    → scaled (w ++ b'.' ∷ f) places ≡ ok (digits_value (w ++ f))
unfolding scaled
scaled_digits places w f hw hf len =
    let dw : all is_digit w ≡ true = ground arith in
    let df : all is_digit f ≡ true = ground arith in
    let none_left : places - length f ≡ 0 = omega arith in
    let same : frac_digits places f ≡ f = rw (take_all places f len, none_left) (append-nil f) in
    let value : scaled_of places (w ∷ f ∷ []) ≡ digits_value (w ++ f) =
      rw (same, digits_value-append w f, len) refl in
    rw (trim_visible (w ++ b'.' ∷ f) (visible_decimal w f dw df)) (
      rw (split-append b'.' w f (digits-lacks w dw), split-lacks b'.' f (digits-lacks f df))
        (rw (hw, hf, value) refl))

length-padded_ge : (n v : ℕ) → n ≤ length (pad_start n b'0' (print v))
unfolding pad_start
length-padded_ge n v = omega (
  arith,
  length-append (replicate {A = ℕ} (n - length (print v)) b'0') (print v),
  length-replicate {A = ℕ} (n - length (print v)) b'0',
)

-- A rendered number is read back at the places that it was rendered with, of which there is one at
-- least.
scaled-to_decimal : (v places : ℕ) → 0 < places → scaled (to_decimal v places) places ≡ ok v
unfolding to_decimal
scaled-to_decimal v places h =
    let s : Text = pad_start (places + 1) b'0' (print v) in
    let k : ℕ = length s - places in
    let some_places : (places == 0) ≡ false = ground arith in
    let (front, back) = length-parts places s (omega (arith, length-padded_ge (places + 1) v)) in
    let (df, db) =
      all-parts is_digit k s (pad_start-digits (places + 1) (print v) (print-digits v)) in
    let hf : is_digits (take k s) ≡ true = ground (arith, length-padded_ge (places + 1) v) in
    let hb : is_digits (drop k s) ≡ true = ground arith in
    let value : digits_value (take k s ++ drop k s) ≡ v =
      ap digits_value (take-append-drop k s)
      ∙ value-pad_start (places + 1) (print v)
      ∙ value-print v in
    rw some_places (scaled_digits places (take k s) (drop k s) hf hb back ∙ ap (λ n. ok n) value)

-- The value of a holding is read back as whole cents: the product of the base units and the price in
-- 10 ^ -8 dollars, over 10 ^ 14, rounded down.
pub usd_value_floor :
    (base_units : ℕ) (usd_per_lc : Text) {price : ℕ}
    → scaled usd_per_lc 8 ≡ ok price
    → (s : Text) × (cents : ℕ) × (usd_value base_units usd_per_lc ≡ ok s)
      × (scaled s 2 ≡ ok cents)
      × (cents * 10 ^ 14 ≤ base_units * price)
      × (base_units * price < (cents + 1) * 10 ^ 14)
unfolding usd_value
usd_value_floor base_units usd_per_lc {price} h =
    let n : ℕ = base_units * price in
    let cents : ℕ = n / 100_000_000_000_000 in
    (
      to_decimal cents 2,
      cents,
      rw h refl,
      scaled-to_decimal cents 2 (omega arith),
      omega arith,
      omega arith,
    )
