-- ===== src/NativePool/Round.antt =====
-- What an intent's limit is worth.
use lasse_cash_migration_to.Prelude.{
  ◌++◌, ℕ, ◌+◌, ◌*◌, ◌/◌, ◌%◌, ◌≤◌, ◌<◌, ◌≡◌, ap, ◌∙◌, true, arith, ok, length, all, pos, Text,
  is_digit, pad_start,
}
use lasse_cash_migration_to.Prelude.Decimal.{
  digits_value, is_digits, print, value-print, print-is_digits, print-digits, pad_start-digits,
  length-print, length-pad_start, value-pad_start,
}
use lasse_cash_migration_to.Amount.{to_units, unit}
use lasse_cash_migration_to.Amount.Parse.{to_units_floor, digits_value-append}
use lasse_cash_migration_to.NativePool.{milli_to_hbd, units_to_milli}

abbrev milli_digits : ℕ → Text
milli_digits m = pad_start 3 b'0' (print (m % 1_000))

length-milli : (m : ℕ) → length (milli_digits m) ≡ 3
length-milli m =
    length-pad_start 3 b'0' (print (m % 1_000)) (length-print 2 (m % 1_000) (omega arith))

digits-milli : (m : ℕ) → all is_digit (milli_digits m) ≡ true
digits-milli m = pad_start-digits 3 (print (m % 1_000)) (print-digits (m % 1_000))

is_digits-milli : (m : ℕ) → is_digits (milli_digits m) ≡ true
is_digits-milli m = ground (arith, digits-milli m, length-milli m)

value-milli : (m : ℕ) → digits_value (print (m / 1_000) ++ milli_digits m) ≡ m
value-milli m =
    rw
      (
        digits_value-append (print (m / 1_000)) (milli_digits m),
        length-milli m,
        value-print (m / 1_000),
        value-pad_start 3 (print (m % 1_000)),
        value-print (m % 1_000),
      )
      (omega arith)

-- A text of milli-HBD reads as exactly the amount that it was made of, in base units.
pub to_units-milli_to_hbd : (m : ℕ) → to_units (milli_to_hbd m) ≡ ok (pos (m * 100_000))
unfolding milli_to_hbd
to_units-milli_to_hbd m =
    let (u, read, low, high) =
      to_units_floor (print (m / 1_000)) (milli_digits m) (print-is_digits (m / 1_000))
        (is_digits-milli m) in
    let low' : u * 1_000 ≤ m * unit = rw (value-milli m, length-milli m) at low in
    let high' : m * unit < (u + 1) * 1_000 = rw (value-milli m, length-milli m) at high in
    let e : u ≡ m * 100_000 = omega arith in read ∙ ap (λ k. ok (pos k)) e

-- The text of an amount in base units, rounded up to milli-HBD, reads as no less than the amount, and
-- as less than one milli-HBD more.
pub limit_covers :
    (units : ℕ)
    → (z : ℕ) × (to_units (milli_to_hbd (units_to_milli units)) ≡ ok (pos z))
      × (units ≤ z)
      × (z < units + 100_000)
unfolding units_to_milli
limit_covers units = (
  units_to_milli units * 100_000,
  to_units-milli_to_hbd (units_to_milli units),
  omega arith,
  omega arith,
)
