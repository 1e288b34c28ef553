-- ===== src/Market.antt =====
-- api/src/market.ts: the public market data of the LASSECASH:HBD pool.
pub mod Entry
pub mod Replay
pub mod Ticker
pub mod Rows
pub mod Supply
pub mod Shapes
pub mod Listings
mod Tests
