-- ===== src/Market/Rows.antt =====
-- The rows that both listing specifications call trades (`tradeRows`).
pub mod Selection
use lasse_cash_migration_to.Prelude.{
  ℕ, Bool, true, false, not, ◌&&◌, Option, none, some, List, [], ◌∷◌, reverse, filter, take, ltb,
  if◌then◌else◌, ℤ, ltb_ℤ,
}
use lasse_cash_migration_to.Market.Entry.{TradeType, buy, sell, add, remove}
use lasse_cash_migration_to.Market.Replay.{MarketTrade}
use lasse_cash_migration_to.Market.Ticker.{is_swap}

-- `opts.type`: only buys or only sells.
pub data Side : Type 0 where
  buys sells : Side

pub record RowOptions : Type 0 where
  pub type : Option Side
  pub limit : Option ℕ
  pub start_ms : Option ℤ
  pub end_ms : Option ℤ

-- `t.type === opts.type`
abbrev pub is_side : Side → TradeType → Bool
is_side buys buy = true
is_side buys _ = false
is_side sells sell = true
is_side sells _ = false

abbrev pub type_test : Option Side → MarketTrade → Bool
type_test none t = true
type_test (some side) t = is_side side t.type

abbrev pub start_test : Option ℤ → MarketTrade → Bool
start_test none t = true
start_test (some start) t = not (ltb_ℤ t.timestamp_ms start)

abbrev pub end_test : Option ℤ → MarketTrade → Bool
end_test none t = true
end_test (some end) t = not (ltb_ℤ end t.timestamp_ms)

-- `opts.limit && opts.limit > 0 ? out.slice(0, opts.limit) : out`
unfoldable pub limited {ℓ} : {A : Type ℓ} → Option ℕ → List A → List A
limited none out = out
limited (some limit) out = if ltb 0 limit then take limit out else out

unfoldable pub trade_rows : List MarketTrade → RowOptions → List MarketTrade
trade_rows trades opts = limited opts.limit (
    reverse (
      filter (end_test opts.end_ms) (
        filter (start_test opts.start_ms)
          (filter (type_test opts.type) (filter (λ t. is_swap t.type) trades)))))
