-- ===== src/Ledger.antt =====
-- api/src/magi-backend.ts: what the chain's transactions and contract outputs say that was called, paid
-- and registered. What the node answers to a page is a parameter.
pub mod Transactions
pub mod Outputs
pub mod Paging
pub mod Calls
pub mod Discovery
pub mod Account
pub mod Tally
mod Tests
