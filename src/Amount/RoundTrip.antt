-- ===== src/Amount/RoundTrip.antt =====
-- Reading back what `fromUnits` renders.
use lasse_cash_migration_to.Prelude.{
  suc, ◌==◌, ℕ, ◌/◌, ◌%◌, ◌≡◌, true, false, [], ◌∷◌, ◌++◌, arith, Text, is_digit, trim_visible,
  is_visible, is_digit-visible, split-append, split-lacks, lacks, starts_with, pad_start,
  take-append, all, all-append, all-imp, replicate, ℤ, pos, negsuc, neg_ℕ, ok, length, not,
  is_space,
}
use lasse_cash_migration_to.Prelude.Decimal.{
  is_digits, print, value-print, print-is_digits, print-digits, length-print, value-pad_start,
  pad_start-digits, length-pad_start,
}
use lasse_cash_migration_to.Amount.{
  split, unit, decimals, units_of, to_units, from_units, normalize,
}

-- The text of a number of base units, without its sign.
abbrev render : ℕ → Text
render v = print (v / unit) ++ b'.' ∷ pad_start decimals b'0' (print (v % unit))

abbrev pub frac_digits : ℕ → Text
frac_digits v = pad_start decimals b'0' (print (v % unit))

pub length-frac : (v : ℕ) → length (frac_digits v) ≡ 8
length-frac v = length-pad_start 8 b'0' (print (v % unit)) (length-print 7 (v % unit) (omega arith))

pub digits-lacks : (s : Text) → all is_digit s ≡ true → lacks b'.' s ≡ true
digits-lacks s h = all-imp is_digit (λ c. not (c == b'.')) s (λ c p. ground arith) h

-- Rendered units split at the dot into two texts of digits.
split-render : (v : ℕ) → split b'.' (render v) ≡ print (v / unit) ∷ frac_digits v ∷ []
split-render v =
    rw
      (split-append b'.' (print (v / unit)) (frac_digits v)
        (digits-lacks (print (v / unit)) (print-digits (v / unit))))
      (rw (
        split-lacks b'.' (frac_digits v) (
          digits-lacks (frac_digits v)
            (pad_start-digits 8 (print (v % unit)) (print-digits (v % unit))))))

frac_digits-is_digits : (v : ℕ) → is_digits (frac_digits v) ≡ true
frac_digits-is_digits v =
    ground (arith, pad_start-digits 8 (print (v % unit)) (print-digits (v % unit)), length-frac v)

units_of-render : (v : ℕ) → units_of (print (v / unit) ∷ frac_digits v ∷ []) ≡ v
units_of-render v =
    rw (value-print (v / unit), take-append 8 (frac_digits v) (replicate 8 b'0') (length-frac v))
      (rw (value-pad_start 8 (print (v % unit)), value-print (v % unit)) (omega arith))

pub visible_digits : (s : Text) → all is_digit s ≡ true → all is_visible s ≡ true
visible_digits s = all-imp is_digit is_visible s is_digit-visible

pub visible_decimal :
    (w f : Text)
    → all is_digit w ≡ true
    → all is_digit f ≡ true
    → all is_visible (w ++ b'.' ∷ f) ≡ true
unfolding is_space
visible_decimal w f hw hf =
    rw (all-append is_visible w (b'.' ∷ f))
      (ground (arith, visible_digits w hw, visible_digits f hf))

render-visible : (v : ℕ) → all is_visible (render v) ≡ true
render-visible v =
    visible_decimal (print (v / unit)) (frac_digits v) (print-digits (v / unit))
      (pad_start-digits 8 (print (v % unit)) (print-digits (v % unit)))

-- A text that begins with a digit has no sign.
pub no_sign : (s t : Text) → is_digits s ≡ true → starts_with (b'-' ∷ []) (s ++ t) ≡ false
no_sign [] t h = cc
no_sign (c ∷ s) t h = ground arith

-- The two signs of a rendered text.
to_units-render : (v : ℕ) → to_units (render v) ≡ ok (pos v)
unfolding to_units
to_units-render v =
    rw
      (
        trim_visible (render v) (render-visible v),
        no_sign (print (v / unit)) (b'.' ∷ frac_digits v) (print-is_digits (v / unit)),
      )
      (rw (split-render v, units_of-render v)
        (ground (arith, print-is_digits (v / unit), frac_digits-is_digits v)))

to_units-minus_render : (v : ℕ) → to_units (b'-' ∷ render v) ≡ ok (neg_ℕ v)
unfolding to_units is_space
to_units-minus_render v = rw (trim_visible (b'-' ∷ render v) (ground (arith, render-visible v))) (
    rw (split-render v, units_of-render v)
      (ground (arith, print-is_digits (v / unit), frac_digits-is_digits v)))

-- Every number of base units is read back from the amount that it renders to.
pub to_units-from_units : (z : ℤ) → to_units (from_units z) ≡ ok z
unfolding from_units
to_units-from_units (pos n) = to_units-render n
to_units-from_units (negsuc n) = to_units-minus_render (suc n)

-- Normalising an amount keeps its value, and normalising the result changes nothing more.
normalize_idem :
    (a : Text) {b : Text} → normalize a ≡ ok b → (to_units b ≡ to_units a) × (normalize b ≡ ok b)
unfolding normalize
normalize_idem a h = grind (arith, to_units-from_units)
