-- ===== src/Amount/Parse.antt =====
-- What `toUnits` reads: the value that the text spells, in base units, rounded down.
use native.Mathlib.Nat.{pow-suc}
use lasse_cash_migration_to.Prelude.{
  length-replicate, ap, length-append, length-take_ge, ◌∙◌, ℕ, zero, suc, ◌+◌, ◌-◌, ◌*◌, ◌^◌, ◌≤◌,
  ◌<◌, ◌≡◌, refl, true, [], ◌∷◌, ◌++◌, arith, Text, is_digit, take, replicate, all, length, pos, ok,
  trim_visible, split-append, split-lacks,
}
use lasse_cash_migration_to.Prelude.Decimal.{value_from, digits_value, is_digits}
use lasse_cash_migration_to.Amount.{unit, to_units, units_of, padded_of}
use lasse_cash_migration_to.Amount.RoundTrip.{visible_decimal, digits-lacks, no_sign}

value_from-append : (n : ℕ) (s t : Text) → value_from n (s ++ t) ≡ value_from (value_from n s) t
unfolding value_from
value_from-append n [] t = refl
value_from-append n (c ∷ s) t = value_from-append (n * 10 + (c - b'0')) s t

value_from-cons : (n c : ℕ) (s : Text) → value_from n (c ∷ s) ≡ value_from (n * 10 + (c - b'0')) s
unfolding value_from
value_from-cons n c s = refl

-- Reading on behind `n` shifts it by the digits that follow.
value_from-shift : (n : ℕ) (s : Text) → value_from n s ≡ n * 10 ^ length s + value_from 0 s
unfolding value_from
value_from-shift n [] = omega arith
value_from-shift n (c ∷ s) =
    rw (value_from-cons n c s, value_from-cons 0 c s, pow-suc 10 (length s))
      (grind
        (arith, value_from-shift (n * 10 + (c - b'0')) s, value_from-shift (0 * 10 + (c - b'0')) s))

value_from_bound :
    (n : ℕ) (s : Text) → all is_digit s ≡ true → value_from n s < (n + 1) * 10 ^ length s
unfolding value_from
value_from_bound n [] h = omega arith
value_from_bound n (c ∷ s) h =
    let d_le : c - b'0' ≤ 9 = ground arith in
    let below : value_from (n * 10 + (c - b'0')) s < (n * 10 + (c - b'0') + 1) * 10 ^ length s =
      value_from_bound (n * 10 + (c - b'0')) s (ground arith) in
    rw (value_from-cons n c s, pow-suc 10 (length s))
      (mono n (c - b'0') _ (10 ^ length s) d_le below)
  where
    mono : (a d v p : ℕ) → d ≤ 9 → v < (a * 10 + d + 1) * p → v < (a + 1) * (p * 10)
    mono a d v p hd hv = grind arith

value-zeros_behind : (m n : ℕ) → value_from n (replicate m b'0') ≡ n * 10 ^ m
value-zeros_behind zero n = unfold value_from in omega arith
value-zeros_behind (suc m) n =
    rw (value_from-cons n b'0' (replicate m b'0'), pow-suc 10 m)
      (grind (arith, value-zeros_behind m (n * 10 + 0)))

take-replicate : (k m : ℕ) → k ≤ m → take {A = ℕ} k (replicate m b'0') ≡ replicate k b'0'
take-replicate zero m h = refl
take-replicate (suc k) zero h = absurd (omega arith)
take-replicate (suc k) (suc m) h = rw (take-replicate k m (omega arith))

scale_le : (a p b q : ℕ) → a * p ≤ b * q → a * (p * 10) ≤ b * (q * 10)
scale_le a p b q h = grind arith

scale_lt : (a p b q : ℕ) → a * p < b * q → a * (p * 10) < b * (q * 10)
scale_lt a p b q h = grind arith

-- The first `k` digits, padded with zeros, are the value rounded down to `k` places.
take_floor :
    (k m n : ℕ) (f : Text)
    → all is_digit f ≡ true
    → k ≤ m
    → let t = value_from n (take k (f ++ replicate m b'0')) in
      (t * 10 ^ length f ≤ value_from n f * 10 ^ k)
      × (value_from n f * 10 ^ k < (t + 1) * 10 ^ length f)
unfolding value_from
take_floor zero m n f h le =
    (omega (arith, value_from-shift n f), omega (arith, value_from_bound n f h))
take_floor (suc k) m n [] h le =
    rw (take-replicate (suc k) m le)
      (omega (arith, value-zeros_behind (suc k) n), omega (arith, value-zeros_behind (suc k) n))
take_floor (suc k) m n (c ∷ f) h le =
    let t : ℕ = value_from (n * 10 + (c - b'0')) (take k (f ++ replicate m b'0')) in
    let (low, high) = take_floor k m (n * 10 + (c - b'0')) f (ground arith) (omega arith) in
    rw (pow-suc 10 k, pow-suc 10 (length f))
      (scale_le t (10 ^ length f) _ (10 ^ k) low, scale_lt _ (10 ^ k) (t + 1) (10 ^ length f) high)

length-padded : (n : ℕ) (f : Text) → length (take {A = ℕ} n (f ++ replicate n b'0')) ≡ n
length-padded n f =
    length-take_ge n (f ++ replicate n b'0')
      (omega (arith, length-append f (replicate n b'0'), length-replicate {A = ℕ} n b'0'))

-- The units of two texts of digits: the whole decimal, rounded down to eight places.
units_floor :
    (w f : Text)
    → all is_digit f ≡ true
    → let u = units_of (w ∷ f ∷ []) in
      (u * 10 ^ length f ≤ digits_value (w ++ f) * unit)
      × (digits_value (w ++ f) * unit < (u + 1) * 10 ^ length f)
units_floor w f h =
    let e : value_from (digits_value w) (padded_of f) ≡ units_of (w ∷ f ∷ []) =
      value_from-shift (digits_value w) (padded_of f)
      ∙ ap (λ n. digits_value w * 10 ^ n + digits_value (padded_of f)) (length-padded 8 f) in
    rw (← e, value_from-append 0 w f) (take_floor 8 8 (digits_value w) f h (omega arith))

-- The value of two texts of digits, one behind the other.
pub digits_value-append :
    (s t : Text) → digits_value (s ++ t) ≡ digits_value s * 10 ^ length t + digits_value t
digits_value-append s t = value_from-append 0 s t ∙ value_from-shift (digits_value s) t

-- A text of digits, a dot and more digits is read as the decimal that it spells, rounded down to
-- whole base units: `u` units where `u` is the floor of the decimal times 10 ^ 8.
pub to_units_floor :
    (w f : Text)
    → is_digits w ≡ true
    → is_digits f ≡ true
    → (u : ℕ) × (to_units (w ++ b'.' ∷ f) ≡ ok (pos u))
      × (u * 10 ^ length f ≤ digits_value (w ++ f) * unit)
      × (digits_value (w ++ f) * unit < (u + 1) * 10 ^ length f)
unfolding to_units
to_units_floor w f hw hf =
    let dw : all is_digit w ≡ true = ground arith in
    let df : all is_digit f ≡ true = ground arith in
    let (low, high) = units_floor w f df in
    (
      units_of (w ∷ f ∷ []),
      rw (trim_visible (w ++ b'.' ∷ f) (visible_decimal w f dw df), no_sign w (b'.' ∷ f) hw)
          (rw (split-append b'.' w f (digits-lacks w dw), split-lacks b'.' f (digits-lacks f df))
            (rw (hw, hf))),
      low,
      high,
    )
