-- ===== src/LegacyPrice/Tests.antt =====
-- A holding and a price.
use lasse_cash_migration_to.Prelude.Decimal.{value_from}
use lasse_cash_migration_to.Prelude.{
  ℕ, ◌+◌, ◌*◌, ◌^◌, ◌≤◌, ◌<◌, ◌≡◌, refl, ok, Text, codes, trim, split, is_space,
}
use lasse_cash_migration_to.LegacyPrice.{scaled, usd_value}
use lasse_cash_migration_to.LegacyPrice.Value.{usd_value_floor}

abbrev price_text : Text
price_text = codes "0.00067187"

price_read : scaled price_text 8 ≡ ok 67_187
unfolding scaled split trim is_space value_from
price_read = refl

usd_value_floor_example :
    (s : Text) × (cents : ℕ) × (usd_value 52_720_116_326_256 price_text ≡ ok s)
    × (scaled s 2 ≡ ok cents)
    × (cents * 10 ^ 14 ≤ 52_720_116_326_256 * 67_187)
    × (52_720_116_326_256 * 67_187 < (cents + 1) * 10 ^ 14)
usd_value_floor_example = usd_value_floor 52_720_116_326_256 price_text price_read
