-- ===== src/Market/Shapes.antt =====
-- The answers in the shapes of the two listing specifications (`gecko*`, `cmc*`).
use lasse_cash_migration_to.Prelude.{
  Option, ℕ, Bool, none, some, List, [], ◌∷◌, map, filter, Text, codes, ℤ, pos, ◌*ℤ◌,
}
use lasse_cash_migration_to.Amount.{Amount, from_units}
use lasse_cash_migration_to.Market.Entry.{TradeType, reserve_price}
use lasse_cash_migration_to.Market.Replay.{MarketTrade, MarketReplay}
use lasse_cash_migration_to.Market.Ticker.{MarketTicker, percent_change}
use lasse_cash_migration_to.Market.Rows.{RowOptions, trade_rows, is_side, buys, sells}

-- `MARKET_PAIR.tickerId`
abbrev pub ticker_id : Text
ticker_id = codes "LASSECASH_HBD"

-- `MARKET_PAIR.base` and `MARKET_PAIR.target`
abbrev pub base : Text
base = codes "LASSECASH"

abbrev pub target : Text
target = codes "HBD"

pub record GeckoPair : Type 0 where
  pub ticker_id : Text
  pub base : Text
  pub target : Text
  pub pool_id : Text

unfoldable pub gecko_pairs : Text → List GeckoPair
gecko_pairs pool_id =
    record { ticker_id = ticker_id; base = base; target = target; pool_id = pool_id } ∷ []

pub record GeckoTicker : Type 0 where
  pub ticker_id : Text
  pub base_currency : Text
  pub target_currency : Text
  pub last_price : Amount
  pub base_volume : Amount
  pub target_volume : Amount
  pub bid : Amount
  pub ask : Amount
  pub high : Amount
  pub low : Amount
  pub pool_id : Text
  pub liquidity_in_hbd : Amount
  pub reconciled : Bool

unfoldable pub gecko_tickers : MarketTicker → MarketReplay → Text → Bool → List GeckoTicker
gecko_tickers t replay pool_id reconciled =
    record {
      ticker_id = ticker_id;
      base_currency = base;
      target_currency = target;
      last_price = from_units t.last_price;
      base_volume = from_units t.base_volume_24h;
      target_volume = from_units t.quote_volume_24h;
      bid = from_units t.last_price;
      ask = from_units t.last_price;
      high = from_units t.high_24h;
      low = from_units t.low_24h;
      pool_id = pool_id;
      liquidity_in_hbd = from_units (replay.hbd_reserve *ℤ pos 2);
      reconciled = reconciled;
    }
    ∷ []

abbrev pub orderbook_note : Text
orderbook_note =
    codes
      "constant-product AMM (x*y=k), zero fee: one marginal level; any size executes along the curve"

pub record GeckoOrderbook : Type 0 where
  pub ticker_id : Text
  pub timestamp : ℤ
  pub bids : List (Amount × Amount)
  pub asks : List (Amount × Amount)
  pub note : Text

pub record CmcOrderbook : Type 0 where
  pub timestamp : ℤ
  pub bids : List (Amount × Amount)
  pub asks : List (Amount × Amount)
  pub note : Text

-- One level: the marginal price, and the reserve as its size.
unfoldable pub gecko_orderbook : MarketReplay → ℤ → GeckoOrderbook
gecko_orderbook replay now_ms =
    let price = from_units (reserve_price replay.lc_reserve replay.hbd_reserve) in
    let size = from_units replay.lc_reserve in
    record {
      ticker_id = ticker_id;
      timestamp = now_ms;
      bids = (price, size) ∷ [];
      asks = (price, size) ∷ [];
      note = orderbook_note;
    }

unfoldable pub cmc_orderbook : MarketReplay → ℤ → CmcOrderbook
cmc_orderbook replay now_ms =
    let g = gecko_orderbook replay now_ms in
    record { timestamp = g.timestamp; bids = g.bids; asks = g.asks; note = g.note }

-- A trade as both specifications list it; the names of the fields are CoinGecko's.
pub record TradeRow : Type 0 where
  pub trade_id : Text
  pub price : Amount
  pub base_volume : Amount
  pub target_volume : Amount
  pub timestamp : ℤ
  pub type : TradeType

unfoldable pub shape : MarketTrade → TradeRow
shape r = record {
  trade_id = r.trade_id;
  price = from_units r.price;
  base_volume = from_units r.lc;
  target_volume = from_units r.hbd;
  timestamp = r.timestamp_ms;
  type = r.type;
}

pub record HistoricalTrades : Type 0 where
  pub buy : List TradeRow
  pub sell : List TradeRow

unfoldable pub gecko_historical_trades : List MarketTrade → RowOptions → HistoricalTrades
gecko_historical_trades trades opts =
    let rows = trade_rows trades opts in
    record {
      buy = map shape (filter (λ r. is_side buys r.type) rows);
      sell = map shape (filter (λ r. is_side sells r.type) rows);
    }

-- `cmcTrades(trades, limit)`
unfoldable pub cmc_trades : List MarketTrade → ℕ → List TradeRow
cmc_trades trades limit =
    map shape (
      trade_rows trades
        (record { type = none; limit = some limit; start_ms = none; end_ms = none }))

pub record CmcSummary : Type 0 where
  pub trading_pairs : Text
  pub base_currency : Text
  pub quote_currency : Text
  pub last_price : Amount
  pub lowest_ask : Amount
  pub highest_bid : Amount
  pub base_volume : Amount
  pub quote_volume : Amount
  pub price_change_percent_24h : Text
  pub highest_price_24h : Amount
  pub lowest_price_24h : Amount

unfoldable pub cmc_summary : MarketTicker → List CmcSummary
cmc_summary t =
    record {
      trading_pairs = ticker_id;
      base_currency = base;
      quote_currency = target;
      last_price = from_units t.last_price;
      lowest_ask = from_units t.last_price;
      highest_bid = from_units t.last_price;
      base_volume = from_units t.base_volume_24h;
      quote_volume = from_units t.quote_volume_24h;
      price_change_percent_24h = percent_change t.price_24h_ago t.last_price;
      highest_price_24h = from_units t.high_24h;
      lowest_price_24h = from_units t.low_24h;
    }
    ∷ []

-- The id of Hive Dollar at CoinMarketCap.
abbrev pub hbd_ucid : ℕ
hbd_ucid = 5_375

pub record CmcTicker : Type 0 where
  pub base_id : Option ℕ
  pub quote_id : ℕ
  pub last_price : Amount
  pub base_volume : Amount
  pub quote_volume : Amount
  pub is_frozen : Text

-- The value under the key `LASSECASH_HBD`.
unfoldable pub cmc_ticker : MarketTicker → CmcTicker
cmc_ticker t = record {
  base_id = none;
  quote_id = hbd_ucid;
  last_price = from_units t.last_price;
  base_volume = from_units t.base_volume_24h;
  quote_volume = from_units t.quote_volume_24h;
  is_frozen = codes "0";
}
