-- ===== src/Amount/Tests.antt =====
-- Amounts that the tests of the library name, and the theorems at them.
use lasse_cash_migration_to.Prelude.Decimal.{value_from}
use lasse_cash_migration_to.Prelude.{
  ◌∷◌, ◌++◌, [], ℕ, ◌+◌, ◌*◌, ◌^◌, ◌≤◌, ◌<◌, ◌≡◌, refl, ◌⊎◌, true, false, ok, err, length, pos,
  negsuc, ltb_ℤ, ◌+ℤ◌, Text, codes, trim, split, pad_start, is_space,
}
use lasse_cash_migration_to.Amount.RoundTrip.{to_units-from_units}
use lasse_cash_migration_to.Amount.Parse.{to_units_floor}
use lasse_cash_migration_to.Amount.Arith.{compare-order, to_base_unit_arg_lem}
use lasse_cash_migration_to.Amount.Display.{format-full}
use lasse_cash_migration_to.Amount.{
  err, true, pos, ltb_ℤ, ◌+ℤ◌, false, ok, Text, codes, sum_from, negsuc, ℕ, to_units, from_units,
  normalize, add, compare, format, to_base_unit_arg, Error, negative_amount, unit,
}
use lasse_cash_migration_to.Prelude.Decimal.{print, digits_value, is_digits}

abbrev one_and_half : Text
one_and_half = codes " -1.5 "

abbrev canonical : Text
canonical = codes "-1.50000000"

to_units-one_and_half : to_units one_and_half ≡ ok (negsuc 149_999_999)
unfolding to_units split trim is_space value_from
to_units-one_and_half = refl

normalize-one_and_half : normalize one_and_half ≡ ok canonical
unfolding normalize to_units from_units print split trim is_space value_from pad_start
normalize-one_and_half = refl

to_units-from_units_example : to_units (from_units (negsuc 41)) ≡ ok (negsuc 41)
to_units-from_units_example = to_units-from_units (negsuc 41)

to_units_floor_example :
    (u : ℕ) × (to_units (codes "3" ++ b'.' ∷ codes "1415926535") ≡ ok (pos u))
    × (u * 10 ^ length (codes "1415926535") ≤ digits_value (codes "3" ++ codes "1415926535") * unit)
    × (digits_value (codes "3" ++ codes "1415926535") * unit
        < (u + 1) * 10 ^ length (codes "1415926535"))
to_units_floor_example = to_units_floor (codes "3") (codes "1415926535") refl refl

to_units-two : to_units (codes "2") ≡ ok (pos 200_000_000)
unfolding to_units split trim is_space value_from
to_units-two = refl

compare-order_example :
    ((compare one_and_half (codes "2") ≡ ok (negsuc 0))
      × (ltb_ℤ (negsuc 149_999_999) (pos 200_000_000) ≡ true))
    ⊎ ((compare one_and_half (codes "2") ≡ ok (pos 0)) × (negsuc 149_999_999 ≡ pos 200_000_000))
    ⊎ ((compare one_and_half (codes "2") ≡ ok (pos 1))
        × (ltb_ℤ (pos 200_000_000) (negsuc 149_999_999) ≡ true))
compare-order_example = compare-order one_and_half (codes "2") to_units-one_and_half to_units-two

add-two : add (one_and_half ∷ codes "2" ∷ []) ≡ ok (codes "0.50000000")
unfolding add to_units from_units print sum_from ◌+ℤ◌ split trim is_space value_from pad_start
add-two = refl

to_base_unit_arg_lem_example :
    ((t : Text) × (z : ℕ) × (to_base_unit_arg canonical ≡ ok t)
      × (to_units canonical ≡ ok (pos z))
      × (is_digits t ≡ true)
      × (digits_value t ≡ z))
    ⊎ ((n : ℕ) × (to_base_unit_arg canonical ≡ err negative_amount)
        × (to_units canonical ≡ ok (negsuc n)))
    ⊎ ((e : Error) × (to_base_unit_arg canonical ≡ err e) × (to_units canonical ≡ err e))
to_base_unit_arg_lem_example = to_base_unit_arg_lem canonical

format-full_example : format (λ s. s) one_and_half 8 false ≡ ok (from_units (negsuc 149_999_999))
format-full_example = format-full (λ s. s) one_and_half to_units-one_and_half
