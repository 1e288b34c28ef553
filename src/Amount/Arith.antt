-- ===== src/Amount/Arith.antt =====
-- Comparing, adding and subtracting amounts.
use lasse_cash_migration_to.Prelude.{
  ap, eq_of_parts, Bool-cases, Result-cases, ℕ, ◌≡◌, refl, ◌⊎◌, inl, inr, [], ◌∷◌, arith, Text, ℤ,
  pos, negsuc, ltb_ℤ, ◌+ℤ◌, ok, err, int_laws,
}
use lasse_cash_migration_to.Prelude.Decimal.{
  digits_value, is_digits, print, value-print, print-is_digits,
}
use lasse_cash_migration_to.Amount.{
  true, Error, negative_amount, to_units, from_units, normalize, compare, sum_from, add, subtract,
  to_base_unit_arg,
}
use lasse_cash_migration_to.Amount.RoundTrip.{to_units-from_units}

-- The order of two amounts that read is that of their units: `compare` answers -1, 0 or 1 exactly when the
-- first is below, equal to or above the second.
pub compare-order :
    (a b : Text) {x y : ℤ}
    → to_units a ≡ ok x
    → to_units b ≡ ok y
    → ((compare a b ≡ ok (negsuc 0)) × (ltb_ℤ x y ≡ true))
      ⊎ ((compare a b ≡ ok (pos 0)) × (x ≡ y))
      ⊎ ((compare a b ≡ ok (pos 1)) × (ltb_ℤ y x ≡ true))
unfolding compare
compare-order a b {x} {y} ha hb = elim (Bool-cases (ltb_ℤ x y)) [
  | inl below ↦ inl (rw (ha, hb, below), below)
  | inr not_below ↦ elim (Bool-cases (ltb_ℤ y x)) [
    | inl above ↦ inr (inr (rw (ha, hb, not_below, above), above))
    | inr not_above ↦ inr (inl (rw (ha, hb, not_below, not_above), eq_of_parts x y (ground arith)))
  ]
]

-- Where two amounts have a sum, subtracting the second from it gives the first back, in canonical
-- form.
subtract-add : (a b : Text) {s : Text} → add (a ∷ b ∷ []) ≡ ok s → subtract s b ≡ normalize a
unfolding add subtract normalize sum_from
subtract-add a b {s} h = elim (Result-cases (to_units a)) [
  | inl (x, ea) ↦ elim (Result-cases (to_units b)) [
    | inl (y, eb) ↦
        let total : ok (from_units (pos 0 +ℤ x +ℤ y)) ≡ ok s = rw (ea, eb) at h in
        let es : s ≡ from_units (pos 0 +ℤ x +ℤ y) = cc in
        rw (es, to_units-from_units (pos 0 +ℤ x +ℤ y), ea, eb)
          (ap (λ z. ok (from_units z)) (omega int_laws))
    | inr (e, eb) ↦ ground arith
  ]
  | inr (e, ea) ↦ ground arith
]

-- What is sent to an entrypoint is one or more digits that spell the units of the input; an amount
-- below zero is refused, and so is a text that is no amount.
pub to_base_unit_arg_lem :
    (s : Text)
    → ((t : Text) × (z : ℕ) × (to_base_unit_arg s ≡ ok t)
        × (to_units s ≡ ok (pos z))
        × (is_digits t ≡ true)
        × (digits_value t ≡ z))
      ⊎ ((n : ℕ) × (to_base_unit_arg s ≡ err negative_amount) × (to_units s ≡ ok (negsuc n)))
      ⊎ ((e : Error) × (to_base_unit_arg s ≡ err e) × (to_units s ≡ err e))
unfolding to_base_unit_arg
to_base_unit_arg_lem s = elim (Result-cases (to_units s)) [
  | inl (pos z, h) ↦ inl (print z, z, rw h refl, h, print-is_digits z, value-print z)
  | inl (negsuc n, h) ↦ inr (inl (n, rw h refl, h))
  | inr (e, h) ↦ inr (inr (e, rw h refl, h))
]
