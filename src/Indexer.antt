-- ===== src/Indexer.antt =====
-- api/src/indexer.ts: the transaction index. `syncIndex` walks the node's history, newest first, into
-- a store behind the interface `IndexStore`; `MemoryIndexStore` is one such store.
pub mod Store
pub mod Sync
pub mod Resume
pub mod Memory
mod Tests
