-- ===== src/NativePool.antt =====
-- api/src/native-pool.ts: the price of the native pool and the conversions between base units and
-- milli-HBD. The reads and quotes through the node are left out.
pub mod Round
pub mod Price
mod Tests
use lasse_cash_migration_to.Prelude.{
  ◌∷◌, ◌++◌, [], ℕ, zero, suc, ◌+◌, ◌-◌, ◌*◌, ◌/◌, ◌%◌, ◌^◌, ◌≤◌, ◌<◌, ◌≡◌, refl, sym, ap, ◌∙◌,
  subst, ◌↔◌, ◌⊎◌, inl, inr, Bool, true, false, not, ◌&&◌, ◌||◌, Option, none, some, List, map,
  reverse, arith, ltb, leb, ◌==◌, if◌then◌else◌, Bool-cases, Result, ok, err, ◌>>=◌, length, take,
  drop, filter, find?, all, any, last?, All, ℤ, pos, negsuc, neg_ℕ, nat_abs, ltb_ℤ, eqb_ℤ, is_neg,
  ◌+ℤ◌, ◌-ℤ◌, ◌*ℤ◌, ◌≤ℤ◌, quot, Text, codes, text_eq, is_digit, trim, split, starts_with, pad_start,
  replicate, is_space, Option-cases, int_laws,
}
use lasse_cash_migration_to.Prelude.Decimal.{print}

pub record NativePoolState : Type 0 where
  pub reserve_hbd_milli : ℕ
  pub reserve_lc : ℕ
  pub fee_bps : ℕ
  pub total_lp : ℕ

-- `s.slice(0, -8)` and `s.slice(-8)` of a text of at least eight characters.
abbrev pub but_last : ℕ → Text → Text
but_last n s = take (length s - n) s

abbrev pub last_of : ℕ → Text → Text
last_of n s = drop (length s - n) s

unfoldable pub native_price : NativePoolState → Option Text
native_price p =
    if p.reserve_lc == 0 || p.reserve_hbd_milli == 0
    then none
    else let scaled = p.reserve_hbd_milli * 100_000 * 100_000_000 / p.reserve_lc in
      let s = pad_start 9 b'0' (print scaled) in some (but_last 8 s ++ b'.' ∷ last_of 8 s)

-- Of an amount that is not negative.
unfoldable pub milli_to_hbd : ℕ → Text
milli_to_hbd milli = print (milli / 1_000) ++ b'.' ∷ pad_start 3 b'0' (print (milli % 1_000))

-- Rounded up; of an amount that is not negative.
unfoldable pub units_to_milli : ℕ → ℕ
units_to_milli units = (units + 99_999) / 100_000
