-- ===== src/Market/Replay.antt =====
-- The replay of the ledger, oldest first (`buildMarketTrades`, `reconciles`).
pub mod Reserves
use lasse_cash_migration_to.Prelude.{
  ℕ, ◌+◌, Bool, ◌&&◌, Option, none, some, List, [], ◌∷◌, ◌++◌, Text, ℤ, pos, ◌+ℤ◌, eqb_ℤ,
}
use lasse_cash_migration_to.Market.Entry.{
  TradeType, PoolLedgerEntry, Delta, reserve_price, parse_ledger_entry, utc_iso,
}

pub record MarketTrade : Type 0 where
  pub trade_id : Text
  pub time : Text
  pub timestamp_ms : ℤ
  pub height : ℕ
  pub type : TradeType
  pub lc : ℤ
  pub hbd : ℤ
  pub lc_reserve : ℤ
  pub hbd_reserve : ℤ
  pub price : ℤ
  pub trader : Text

pub record MarketReplay : Type 0 where
  pub trades : List MarketTrade
  pub lc_reserve : ℤ
  pub hbd_reserve : ℤ
  pub skipped : ℕ

-- `Date.parse` on a text with a zone: a parameter.
module _ (date_parse : Text → ℤ) where
  -- The trade of an entry that was read, at the reserves after it.
  unfoldable pub trade_of : PoolLedgerEntry → Delta → ℤ → ℤ → MarketTrade
  trade_of e p lc hbd = record {
    trade_id = e.tx_id;
    time = utc_iso e.time;
    timestamp_ms = date_parse (utc_iso e.time);
    height = e.height;
    type = p.type;
    lc = p.lc;
    hbd = p.hbd;
    lc_reserve = lc;
    hbd_reserve = hbd;
    price = reserve_price lc hbd;
    trader = e.signer;
  }

  -- One round of the loop, on what `parseLedgerEntry` returned.
  unfoldable pub apply_delta : PoolLedgerEntry → Option Delta → MarketReplay → MarketReplay
  apply_delta e none r = record r { skipped = r.skipped + 1 }
  apply_delta e (some p) r =
      let lc = r.lc_reserve +ℤ p.d_lc in
      let hbd = r.hbd_reserve +ℤ p.d_hbd in
      record r { trades = r.trades ++ trade_of e p lc hbd ∷ []; lc_reserve = lc; hbd_reserve = hbd }

  unfoldable pub replay_from : MarketReplay → List PoolLedgerEntry → MarketReplay
  replay_from r [] = r
  replay_from r (e ∷ ledger) = replay_from (apply_delta e (parse_ledger_entry e) r) ledger

  unfoldable pub build_market_trades : List PoolLedgerEntry → MarketReplay
  build_market_trades ledger =
      replay_from (record { trades = []; lc_reserve = pos 0; hbd_reserve = pos 0; skipped = 0 })
        ledger

-- `r.lcReserve === liveLcUnits && r.hbdReserve === liveHbdUnits`
unfoldable pub reconciles : MarketReplay → ℤ → ℤ → Bool
reconciles r live_lc live_hbd = eqb_ℤ r.lc_reserve live_lc && eqb_ℤ r.hbd_reserve live_hbd
