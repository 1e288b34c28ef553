-- ===== src/Market/Tests.antt =====
-- A short ledger: the pool is funded, a swap is made, and a call fails.
use lasse_cash_migration_to.Prelude.Decimal.{value_from}
use lasse_cash_migration_to.Prelude.{
  ◌∷◌, [], ◌≡◌, refl, ◌↔◌, ◌⊎◌, Bool, true, false, none, some, List, reverse, if◌then◌else◌, length,
  filter, last?, All, ℤ, pos, negsuc, ◌-ℤ◌, ◌≤ℤ◌, Text, codes, text_eq, split,
}
use lasse_cash_migration_to.Market.Entry.{
  canonical_action, label_of, read_answer, number_between, number_after, strip, span_digits,
  PoolLedgerEntry, Delta, parse_ledger_entry, sell,
}
use lasse_cash_migration_to.Market.Replay.{MarketTrade, build_market_trades, reconciles}
use lasse_cash_migration_to.Market.Replay.Reserves.{
  IsReplay, IsSigned, net_lc, net_hbd, build_market_trades-IsReplay, reconciles-net,
  parse_ledger_entry-IsSigned,
}
use lasse_cash_migration_to.Market.Ticker.{market_ticker, day_ms, price_or_zero}
use lasse_cash_migration_to.Market.Ticker.Volume.{
  swap_since, total_lc, total_hbd, market_ticker-volume,
}
use lasse_cash_migration_to.Market.Ticker.Range.{counted, Between, market_ticker-range}
use lasse_cash_migration_to.Market.Rows.{RowOptions, sells, trade_rows}
use lasse_cash_migration_to.Market.Rows.Selection.{IsAsked, IsLimited, trade_rows-IsAsked}
use lasse_cash_migration_to.Market.Supply.{RawState, SupplyFigures}

abbrev call : Text → Text → Text → Bool → PoolLedgerEntry
call action payload ret accepted = record {
  time = codes "2026-10-20T00:00:00";
  height = 3;
  action = action;
  payload = payload;
  signer = codes "hive:alice";
  tx_id = codes "t1";
  ok = accepted;
  ret = ret;
}

abbrev funding : PoolLedgerEntry
funding = call (codes "add_liquidity") (codes "1000|50") (codes "added 1000 LC and 50 HBD") true

abbrev swap : PoolLedgerEntry
swap = call (codes "swap_lc_hbd") (codes "100|1") (codes "swapped for 4 HBD") true

abbrev refused : PoolLedgerEntry
refused = call (codes "swap_hbd_lassecash") (codes "7|1") (codes "slippage") false

abbrev ledger : List PoolLedgerEntry
ledger = funding ∷ swap ∷ refused ∷ []

-- A stand-in for `Date.parse`.
abbrev parsed : Text → ℤ
parsed s = pos (length s)

abbrev swap_delta : Delta
swap_delta = record { type = sell; lc = pos 100; hbd = pos 4; d_lc = pos 100; d_hbd = negsuc 3 }

swap_read : parse_ledger_entry swap ≡ some swap_delta
unfolding parse_ledger_entry canonical_action label_of read_answer number_between number_after strip
    span_digits split value_from
swap_read = refl

parse_ledger_entry-IsSigned_example : (swap.ok ≡ true) × IsSigned swap_delta
parse_ledger_entry-IsSigned_example = parse_ledger_entry-IsSigned swap swap_read

build_market_trades-IsReplay_example : IsReplay (length ledger) (build_market_trades parsed ledger)
build_market_trades-IsReplay_example = build_market_trades-IsReplay parsed ledger

reconciles-net_example :
    (reconciles (build_market_trades parsed ledger) (pos 1_100) (pos 46) ≡ true) ↔ (
      (net_lc (build_market_trades parsed ledger).trades ≡ pos 1_100)
      × (net_hbd (build_market_trades parsed ledger).trades ≡ pos 46))
reconciles-net_example = reconciles-net parsed ledger (pos 1_100) (pos 46)

abbrev trade : ℤ → ℤ → MarketTrade
trade time price = record {
  trade_id = codes "t1";
  time = codes "2026-10-20T00:00:00Z";
  timestamp_ms = time;
  height = 3;
  type = sell;
  lc = pos 100;
  hbd = pos 4;
  lc_reserve = pos 1_100;
  hbd_reserve = pos 46;
  price = price;
  trader = codes "hive:alice";
}

-- One trade before the window of the last day, and two in it.
abbrev trades : List MarketTrade
trades = trade (pos 5) (pos 30) ∷ trade (pos 50) (pos 20) ∷ trade (pos 60) (pos 25) ∷ []

abbrev now : ℤ
now = pos 86_400_010

market_ticker-volume_example :
    ((market_ticker trades now).base_volume_24h
      ≡ total_lc (filter (swap_since (now -ℤ day_ms)) trades))
    × ((market_ticker trades now).quote_volume_24h
        ≡ total_hbd (filter (swap_since (now -ℤ day_ms)) trades))
    × ((market_ticker trades now).trades_24h ≡ length (filter (swap_since (now -ℤ day_ms)) trades))
    × ((market_ticker trades now).last_price ≡ price_or_zero (last? trades))
market_ticker-volume_example = market_ticker-volume trades now

market_ticker-range_example :
    All (Between (market_ticker trades now)) (filter (counted (now -ℤ day_ms)) trades)
    × (((pos 1 ≤ℤ (market_ticker trades now).low_24h)
          × ((market_ticker trades now).low_24h ≤ℤ (market_ticker trades now).high_24h))
        ⊎ (((market_ticker trades now).high_24h ≡ (market_ticker trades now).last_price)
            × ((market_ticker trades now).low_24h ≡ (market_ticker trades now).last_price)))
market_ticker-range_example = market_ticker-range trades now

abbrev newest_sell : RowOptions
newest_sell = record { type = some sells; limit = some 1; start_ms = some (pos 10); end_ms = none }

trade_rows-IsAsked_example :
    (asked : MarketTrade → Bool) × ((t : MarketTrade) → (asked t ≡ true) ↔ IsAsked newest_sell t)
    × IsLimited newest_sell.limit (reverse (filter asked trades)) (trade_rows trades newest_sell)
trade_rows-IsAsked_example = trade_rows-IsAsked trades newest_sell

-- A state that holds one key, `sup_migrated`.
abbrev raw : RawState
raw key = if text_eq key (codes "sup_migrated") then some (codes "900") else none

abbrev figures : SupplyFigures
figures = record {
  total = pos 900;
  circulating = pos 860;
  burned = pos 40;
  emitted = pos 0;
  unclaimed_migration = pos 0;
  max = pos 5_100_000_000_000_000;
}
