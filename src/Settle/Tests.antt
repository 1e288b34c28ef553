-- ===== src/Settle/Tests.antt =====
-- An account with a balance to settle.
use lasse_cash_migration_to.Prelude.Decimal.{value_from}
use lasse_cash_migration_to.Prelude.{
  ◌≡◌, refl, ◌↔◌, ◌⊎◌, true, none, some, ok, pos, ltb_ℤ, ◌≤ℤ◌, codes, trim, split, is_space,
}
use lasse_cash_migration_to.Amount.{to_units}
use lasse_cash_migration_to.Settle.{
  SettleView, settle_is_due, settle_is_due_iff, or_zero, min_mint_units,
}

abbrev anchored : SettleView
anchored = record {
  pending = codes "1.5";
  pending_epoch = some (pos 24_321);
  pending_curation = none;
}

anchored_units : to_units anchored.pending ≡ ok (pos 150_000_000)
unfolding to_units split trim is_space value_from
anchored_units = refl

settle_is_due_iff_example : (settle_is_due (some anchored) (pos 24_322) ≡ ok true) ↔ (
    (pos 1 ≤ℤ pos 24_322)
    × ((pos 1 ≤ℤ or_zero anchored.pending_curation)
        ⊎ ((pos 1 ≤ℤ or_zero anchored.pending_epoch)
            × (ltb_ℤ (or_zero anchored.pending_epoch) (pos 24_322) ≡ true)
            × (min_mint_units ≤ℤ pos 150_000_000))))
settle_is_due_iff_example = settle_is_due_iff anchored (pos 24_322) (pos 150_000_000) anchored_units
