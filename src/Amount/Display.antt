-- ===== src/Amount/Display.antt =====
-- Amounts for display.
use lasse_cash_migration_to.Prelude.{take_all, ◌≡◌, false, Text, ℤ, ok}
use lasse_cash_migration_to.Amount.RoundTrip.{frac_digits, length-frac}
use lasse_cash_migration_to.Amount.{nat_abs, to_units, from_units, format}

-- Without grouping and with all eight places, the text shown of an amount that reads is the canonical
-- amount.
pub format-full :
    (group : Text → Text) (a : Text) {z : ℤ}
    → to_units a ≡ ok z
    → format group a 8 false ≡ ok (from_units z)
unfolding format from_units
format-full group a {z} h = rw (h, take_all 8 (frac_digits (nat_abs z)) (length-frac (nat_abs z)))
