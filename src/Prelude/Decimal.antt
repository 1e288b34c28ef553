-- ===== src/Prelude/Decimal.antt =====
-- Decimal numerals: `BigInt.toString` and `BigInt` on a text of digits.
use Prim.Native.Nat.{ℕ, zero, suc, ◌+◌, ◌-◌, ◌*◌, ◌/◌, ◌%◌, ◌^◌, ◌≤◌, ◌<◌}
use native.Mathlib.Nat.{pow-suc}
use mathlib.Core.Path.{◌≡◌, refl}
use mathlib.Core.Bool.{Bool, true, false, not, ◌&&◌}
use mathlib.Core.List.{[], ◌∷◌, ◌++◌}
use native.Mathlib.Omega.{arith}
use lasse_cash_migration_to.Prelude.Tests.{ltb, if◌then◌else◌}
use lasse_cash_migration_to.Prelude.Lists.{
  length, replicate, all, all-append, all-replicate, length-append, length-replicate,
}
use lasse_cash_migration_to.Prelude.Texts.{Text, is_digit, is_empty, pad_start}

-- The number that digits spell behind `n`.
unfoldable pub value_from : ℕ → Text → ℕ
value_from n [] = n
value_from n (c ∷ s) = value_from (n * 10 + (c - b'0')) s

-- `BigInt(s)` for a text of digits.
abbrev pub digits_value : Text → ℕ
digits_value s = value_from 0 s

-- The regular expression `\d+`, on a whole text.
abbrev pub is_digits : Text → Bool
is_digits s = not (is_empty s) && all is_digit s

-- The digits of `n` in front of `out`; the fuel bounds their count.
print_from : ℕ → ℕ → Text → Text
print_from zero n out = out
print_from (suc f) n out =
    let rest = print_from f (n / 10) ((b'0' + n % 10) ∷ out) in
    if ltb n 10 then (b'0' + n % 10) ∷ out else rest

-- `n.toString()`: `n + 1` rounds are enough, since each divides `n` by ten.
unfoldable pub print : ℕ → Text
unfolding print_from
print n = print_from (suc n) n []

value-print_from :
    (f n : ℕ) (out : Text) → n < f → value_from 0 (print_from f n out) ≡ value_from n out
unfolding print_from value_from
value-print_from zero n out h = absurd (omega arith)
value-print_from (suc f) n out h =
    ground (arith, value-print_from f (n / 10) ((b'0' + n % 10) ∷ out))

-- A printed number reads back.
pub value-print : (n : ℕ) → digits_value (print n) ≡ n
unfolding print value_from
value-print n = value-print_from (suc n) n [] (omega arith)

print_from-digits :
    (f n : ℕ) (out : Text) → all is_digit out ≡ true → all is_digit (print_from f n out) ≡ true
unfolding print_from
print_from-digits zero n out h = h
print_from-digits (suc f) n out h =
    ground (arith, print_from-digits f (n / 10) ((b'0' + n % 10) ∷ out))

print_from-nonempty :
    (f n : ℕ) (out : Text) → is_empty out ≡ false → is_empty (print_from f n out) ≡ false
unfolding print_from
print_from-nonempty zero n out h = h
print_from-nonempty (suc f) n out h =
    ground (arith, print_from-nonempty f (n / 10) ((b'0' + n % 10) ∷ out))

pub print-digits : (n : ℕ) → all is_digit (print n) ≡ true
unfolding print
print-digits n = print_from-digits (suc n) n [] refl

-- A printed number is one or more digits.
pub print-is_digits : (n : ℕ) → is_digits (print n) ≡ true
unfolding print
print-is_digits n =
    ground (arith, print-digits n, print_from-nonempty n (n / 10) ((b'0' + n % 10) ∷ []))

length-print_from :
    (k f n : ℕ) (out : Text) → n < 10 ^ suc k → length (print_from f n out) ≤ suc k + length out
unfolding print_from
length-print_from k zero n out h = omega arith
length-print_from zero (suc f) n out h = ground arith
length-print_from (suc k) (suc f) n out h = ground (
  arith,
  length-print_from k f (n / 10) ((b'0' + n % 10) ∷ out),
  pow-suc 10 k,
  pow-suc 10 (suc k),
)

-- A number below 10 ^ k has at most k digits.
pub length-print : (k n : ℕ) → n < 10 ^ suc k → length (print n) ≤ suc k
unfolding print
length-print k n h = omega (arith, length-print_from k (suc n) n [] h)

pub value-zeros : (k : ℕ) (s : Text) → value_from 0 (replicate k b'0' ++ s) ≡ value_from 0 s
unfolding value_from
value-zeros zero s = refl
value-zeros (suc k) s = value-zeros k s

-- Padding with zeros changes no value.
pub value-pad_start : (n : ℕ) (s : Text) → digits_value (pad_start n b'0' s) ≡ digits_value s
unfolding pad_start
value-pad_start n s = value-zeros (n - length s) s

pub pad_start-digits :
    (n : ℕ) (s : Text) → all is_digit s ≡ true → all is_digit (pad_start n b'0' s) ≡ true
unfolding pad_start
pad_start-digits n s h =
    rw (all-append is_digit (replicate (n - length s) b'0') s, h)
      (ground (arith, all-replicate is_digit (n - length s) b'0' refl))

pub length-pad_start : (n c : ℕ) (s : Text) → length s ≤ n → length (pad_start n c s) ≡ n
unfolding pad_start
length-pad_start n c s h =
    omega (arith, length-append (replicate (n - length s) c) s, length-replicate (n - length s) c)
