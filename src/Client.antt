-- ===== src/Client.antt =====
-- api/src/client.ts: the replay of the pool's history, and the calls that the client makes.
pub mod Pool
pub mod Calls
mod Tests
