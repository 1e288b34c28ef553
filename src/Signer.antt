-- ===== src/Signer.antt =====
-- api/src/aioha-signer.ts: how a call of the contract is sized, bundled and handed to the wallet.
pub mod Calls
pub mod Tables
pub mod Sizing
pub mod Bounds
pub mod Bundle
pub mod Batch
pub mod Reason
pub mod Wallet
mod Tests
