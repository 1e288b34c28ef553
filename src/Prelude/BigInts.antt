-- ===== src/Prelude/BigInts.antt =====
-- `BigInt(s)`: a signed decimal text, a text of digits behind `0x`, `0o` or `0b`, or white space
-- alone, which is zero. Any other text throws (`none`).
use Prim.Native.Nat.{ℕ, suc, ◌+◌, ◌-◌, ◌*◌}
use mathlib.Core.Path.{◌≡◌}
use mathlib.Core.Bool.{Bool, true, false, not, ◌&&◌, ◌||◌}
use mathlib.Core.Option.{Option, none, some}
use mathlib.Core.List.{[], ◌∷◌}
use native.Mathlib.Omega.{arith}
use lasse_cash_migration_to.Prelude.Tests.{leb, ltb, ◌==◌, if◌then◌else◌}
use lasse_cash_migration_to.Prelude.Lists.{all, all-imp}
use lasse_cash_migration_to.Prelude.Int.{ℤ, pos, negsuc, neg_ℕ}
use lasse_cash_migration_to.Prelude.Texts.{
  Text, trim, is_digit, is_empty, trim_visible, is_visible, is_digit-visible,
}
use lasse_cash_migration_to.Prelude.Decimal.{print, digits_value, is_digits}

-- `n.toString()` of a `bigint`.
abbrev pub print_ℤ : ℤ → Text
print_ℤ (pos n) = print n
print_ℤ (negsuc n) = b'-' ∷ print (suc n)

-- The value of a digit of any radix up to sixteen, or sixteen.
abbrev pub digit_of : ℕ → ℕ
digit_of c =
    if leb b'0' c && leb c b'9'
    then c - b'0'
    else if leb b'a' c && leb c b'f'
    then c - b'a' + 10
    else if leb b'A' c && leb c b'F'
    then c - b'A' + 10
    else 16

unfoldable pub radix_value : ℕ → ℕ → Text → ℕ
radix_value radix n [] = n
radix_value radix n (c ∷ s) = radix_value radix (n * radix + digit_of c) s

-- The digits behind a radix prefix.
unfoldable pub radix_digits : ℕ → Text → Option ℤ
unfolding radix_value
radix_digits radix s =
    if not (is_empty s) && all (λ c. ltb (digit_of c) radix) s
    then some (pos (radix_value radix 0 s))
    else none

abbrev signed_digits : Bool → Text → Option ℤ
signed_digits neg s =
    if is_digits s
    then some (if neg then neg_ℕ (digits_value s) else pos (digits_value s))
    else none

-- The letter that follows a leading zero.
abbrev radix_letter : ℕ → Option ℕ
radix_letter c =
    if c == b'x' || c == b'X'
    then some 16
    else if c == b'o' || c == b'O'
    then some 8
    else if c == b'b' || c == b'B'
    then some 2
    else none

abbrev trimmed_big_int : Text → Option ℤ
trimmed_big_int [] = some (pos 0)
trimmed_big_int (c ∷ []) = signed_digits false (c ∷ [])
trimmed_big_int (c ∷ d ∷ s) =
    if c == b'-'
    then signed_digits true (d ∷ s)
    else if c == b'+'
    then signed_digits false (d ∷ s)
    else elim (if c == b'0' then radix_letter d else none) [
      | some radix ↦ radix_digits radix s
      | none ↦ signed_digits false (c ∷ d ∷ s)
    ]

unfoldable pub big_int : Text → Option ℤ
unfolding trim radix_digits
big_int s = trimmed_big_int (trim s)

pub trimmed_big_int_digits :
    (s : Text) → is_digits s ≡ true → trimmed_big_int s ≡ some (pos (digits_value s))
trimmed_big_int_digits [] h = cc
trimmed_big_int_digits (c ∷ []) h = rw h
trimmed_big_int_digits (c ∷ d ∷ s) h = ground arith

-- A text of digits is the number that it spells.
pub big_int_digits : (s : Text) → is_digits s ≡ true → big_int s ≡ some (pos (digits_value s))
unfolding big_int
big_int_digits s h =
    rw (trim_visible s (all-imp is_digit is_visible s is_digit-visible (ground arith)))
      (trimmed_big_int_digits s h)
