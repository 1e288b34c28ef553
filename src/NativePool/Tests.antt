-- ===== src/NativePool/Tests.antt =====
-- A pool and an amount.
use lasse_cash_migration_to.Prelude.{ℕ, ◌+◌, ◌*◌, ◌/◌, ◌≤◌, ◌<◌, ◌≡◌, some, arith, ok, pos, Text}
use lasse_cash_migration_to.Amount.{to_units}
use lasse_cash_migration_to.NativePool.{NativePoolState, native_price, milli_to_hbd, units_to_milli}
use lasse_cash_migration_to.NativePool.Round.{limit_covers}
use lasse_cash_migration_to.NativePool.Price.{to_units-native_price}

limit_covers_example :
    (z : ℕ) × (to_units (milli_to_hbd (units_to_milli 123_456_789)) ≡ ok (pos z))
    × (123_456_789 ≤ z)
    × (z < 123_456_789 + 100_000)
limit_covers_example = limit_covers 123_456_789

abbrev pool : NativePoolState
pool = record {
  reserve_hbd_milli = 30_000;
  reserve_lc = 700_000_000_000;
  fee_bps = 8;
  total_lp = 100;
}

to_units-native_price_example :
    (s : Text) × (native_price pool ≡ some s)
    × (to_units s ≡ ok (pos (pool.reserve_hbd_milli * 100_000 * 100_000_000 / pool.reserve_lc)))
to_units-native_price_example = to_units-native_price pool (omega arith) (omega arith)
