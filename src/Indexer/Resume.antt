-- ===== src/Indexer/Resume.antt =====
-- A fixed history is indexed over any number of calls, each of which may stop after a few pages.
mod Pages
pub mod Walks
pub mod Calls
pub mod Enough
