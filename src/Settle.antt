-- ===== src/Settle.antt =====
-- api/src/settle.ts: is there something for `settle_pending` to do for an account?
mod Tests
use lasse_cash_migration_to.Prelude.{
  ℕ, ◌+◌, ◌*◌, ◌<◌, ◌≡◌, refl, Bool, true, false, not, Option, none, some, Text, if◌then◌else◌, ℤ,
  pos, ltb_ℤ, ◌≤ℤ◌, Result, ok, arith, ◌↔◌, ◌⊎◌, inl, inr, ◌>>=◌,
}
use lasse_cash_migration_to.Amount.{Error, to_units}

-- The fields of `AccountView` that are read; `none` is an absent field.
pub record SettleView : Type 0 where
  pub pending : Text
  pub pending_epoch : Option ℤ
  pub pending_curation : Option ℤ

abbrev pub min_mint_units : ℤ
min_mint_units = pos 100_000_000

-- `x ?? 0`
abbrev pub or_zero : Option ℤ → ℤ
or_zero none = pos 0
or_zero (some x) = x

unfoldable pub settle_is_due : Option SettleView → ℤ → Result Error Bool
settle_is_due none epoch = ok false
settle_is_due (some me) epoch =
    if not (ltb_ℤ (pos 0) epoch)
    then ok false
    else if ltb_ℤ (pos 0) (or_zero me.pending_curation)
    then ok true
    else if not (ltb_ℤ (pos 0) (or_zero me.pending_epoch))
    then ok false
    else if not (ltb_ℤ (or_zero me.pending_epoch) epoch)
    then ok false
    else do ok (not (ltb_ℤ (← to_units me.pending) min_mint_units))

-- The year and the month, from 0 to 11, of a moment in UTC.
unfoldable pub current_month_epoch : ℕ → ℕ → ℕ
current_month_epoch year month = year * 12 + (month + 1)

-- The ladder of tests, over their outcomes.
ladder : Bool → Bool → Bool → Bool → Bool → Result Error Bool
ladder in_epoch queued anchored turned short =
    if not in_epoch
    then ok false
    else if queued
    then ok true
    else if not anchored
    then ok false
    else if not turned
    then ok false
    else ok (not short)

ladder_iff :
    (a b c d e : Bool)
    → (ladder a b c d e ≡ ok true)
      ↔ ((a ≡ true) × ((b ≡ true) ⊎ ((c ≡ true) × (d ≡ true) × (e ≡ false))))
unfolding ladder
ladder_iff a b c d e = (λ h. ground arith, λ h. ground arith)

above_iff : (z : ℤ) → (ltb_ℤ (pos 0) z ≡ true) ↔ (pos 1 ≤ℤ z)
above_iff z = (λ h. ground arith, λ h. ground arith)

short_iff : (x y : ℤ) → (ltb_ℤ x y ≡ false) ↔ (y ≤ℤ x)
short_iff x y = (λ h. ground arith, λ h. ground arith)

settle_is_due-ladder :
    (me : SettleView) (epoch units : ℤ)
    → to_units me.pending ≡ ok units
    → settle_is_due (some me) epoch
      ≡ ladder
          (ltb_ℤ (pos 0) epoch)
          (ltb_ℤ (pos 0) (or_zero me.pending_curation))
          (ltb_ℤ (pos 0) (or_zero me.pending_epoch))
          (ltb_ℤ (or_zero me.pending_epoch) epoch)
          (ltb_ℤ units min_mint_units)
unfolding settle_is_due ladder
settle_is_due-ladder me epoch units h = rw h refl

-- Where the pending amount reads as a number of units, a call is due exactly when there is an epoch
-- and curation is queued, or the month has turned since the anchor and at least one whole LASSECASH
-- is pending.
pub settle_is_due_iff :
    (me : SettleView) (epoch units : ℤ)
    → to_units me.pending ≡ ok units
    → (settle_is_due (some me) epoch ≡ ok true) ↔ (
        (pos 1 ≤ℤ epoch)
        × ((pos 1 ≤ℤ or_zero me.pending_curation)
            ⊎ ((pos 1 ≤ℤ or_zero me.pending_epoch)
                × (ltb_ℤ (or_zero me.pending_epoch) epoch ≡ true)
                × (min_mint_units ≤ℤ units))))
settle_is_due_iff me epoch units h =
    let (out, back) =
      ladder_iff (ltb_ℤ (pos 0) epoch) (ltb_ℤ (pos 0) (or_zero me.pending_curation))
        (ltb_ℤ (pos 0) (or_zero me.pending_epoch)) (ltb_ℤ (or_zero me.pending_epoch) epoch)
        (ltb_ℤ units min_mint_units) in
    rw (settle_is_due-ladder me epoch units h) (
      λ due.
          let (a, rest) = out due in
          (
            (above_iff epoch).0 a,
            elim rest [
              | inl b ↦ inl ((above_iff (or_zero me.pending_curation)).0 b)
              | inr (c, d, e) ↦ inr (
                (above_iff (or_zero me.pending_epoch)).0 c,
                d,
                (short_iff units min_mint_units).0 e,
              )
            ],
          ),
      λ (a, rest). back (
        (above_iff epoch).1 a,
        elim rest [
          | inl b ↦ inl ((above_iff (or_zero me.pending_curation)).1 b)
          | inr (c, d, e) ↦
              inr (
                (above_iff (or_zero me.pending_epoch)).1 c,
                d,
                (short_iff units min_mint_units).1 e,
              )
        ],
      ),
    )

-- The epoch determines the year and the month, counted from 0 to 11.
current_month_epoch_injective :
    (y m y' m' : ℕ)
    → m < 12
    → m' < 12
    → current_month_epoch y m ≡ current_month_epoch y' m'
    → (y ≡ y') × (m ≡ m')
unfolding current_month_epoch
current_month_epoch_injective y m y' m' h h' e = omega arith
