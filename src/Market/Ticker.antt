-- ===== src/Market/Ticker.antt =====
-- The 24-hour figures (`marketTicker`, `percentChange`).
pub mod Volume
pub mod Range
use lasse_cash_migration_to.Prelude.{
  ℕ, ◌+◌, ◌*◌, ◌/◌, ◌%◌, Bool, true, false, not, ◌||◌, Option, none, some, List, [], ◌∷◌, ◌++◌,
  Text, codes, last?, pad_start, if◌then◌else◌, ℤ, pos, ltb_ℤ, eqb_ℤ, is_neg, ◌+ℤ◌, ◌-ℤ◌, ◌*ℤ◌,
  quot, nat_abs,
}
use lasse_cash_migration_to.Prelude.Decimal.{print}
use lasse_cash_migration_to.Market.Entry.{TradeType, buy, sell, add, remove}
use lasse_cash_migration_to.Market.Replay.{MarketTrade}

pub record MarketTicker : Type 0 where
  pub last_price : ℤ
  pub base_volume_24h : ℤ
  pub quote_volume_24h : ℤ
  pub high_24h : ℤ
  pub low_24h : ℤ
  pub price_24h_ago : ℤ
  pub trades_24h : ℕ

abbrev pub day_ms : ℤ
day_ms = pos 86_400_000

-- `t.type === "buy" || t.type === "sell"`
abbrev pub is_swap : TradeType → Bool
is_swap buy = true
is_swap sell = true
is_swap add = false
is_swap remove = false

-- `t.price` of the last trade, or `0n`.
abbrev pub price_or_zero : Option MarketTrade → ℤ
price_or_zero none = pos 0
price_or_zero (some t) = t.price

-- `if (high24h === 0n || t.price > high24h) high24h = t.price`, and the same for the low.
unfoldable pub widen : ℤ → MarketTicker → MarketTicker
widen price s = record s {
  high_24h = if eqb_ℤ s.high_24h (pos 0) || ltb_ℤ s.high_24h price then price else s.high_24h;
  low_24h = if eqb_ℤ s.low_24h (pos 0) || ltb_ℤ price s.low_24h then price else s.low_24h;
}

-- A swap adds to the volumes.
unfoldable pub count_swap : MarketTrade → MarketTicker → MarketTicker
count_swap t s =
    if is_swap t.type
    then record s {
      base_volume_24h = s.base_volume_24h +ℤ t.lc;
      quote_volume_24h = s.quote_volume_24h +ℤ t.hbd;
      trades_24h = s.trades_24h + 1;
    }
    else s

-- One round of the loop.
unfoldable pub tick : ℤ → MarketTrade → MarketTicker → MarketTicker
tick since t s =
    if ltb_ℤ t.timestamp_ms since
    then record s { price_24h_ago = t.price }
    else count_swap t (if ltb_ℤ (pos 0) t.price then widen t.price s else s)

unfoldable pub tick_all : ℤ → List MarketTrade → MarketTicker → MarketTicker
tick_all since [] s = s
tick_all since (t ∷ trades) s = tick_all since trades (tick since t s)

abbrev pub empty_ticker : ℤ → MarketTicker
empty_ticker last_price = record {
  last_price = last_price;
  base_volume_24h = pos 0;
  quote_volume_24h = pos 0;
  high_24h = pos 0;
  low_24h = pos 0;
  price_24h_ago = pos 0;
  trades_24h = 0;
}

-- `if (high24h === 0n) high24h = lastPrice`, and the same for the low.
unfoldable pub or_last_price : MarketTicker → MarketTicker
or_last_price s = record s {
  high_24h = if eqb_ℤ s.high_24h (pos 0) then s.last_price else s.high_24h;
  low_24h = if eqb_ℤ s.low_24h (pos 0) then s.last_price else s.low_24h;
}

unfoldable pub market_ticker : List MarketTrade → ℤ → MarketTicker
market_ticker trades now_ms =
    or_last_price (tick_all (now_ms -ℤ day_ms) trades (empty_ticker (price_or_zero (last? trades))))

-- Basis points, rounded toward zero.
unfoldable pub percent_change : ℤ → ℤ → Text
percent_change from to =
    if not (ltb_ℤ (pos 0) from)
    then codes "0.00"
    else let bp = quot ((to -ℤ from) *ℤ pos 10_000) (nat_abs from) in
      let abs = nat_abs bp in
      (if is_neg bp then b'-' ∷ [] else [])
      ++ (print (abs / 100) ++ b'.' ∷ pad_start 2 b'0' (print (abs % 100)))
