-- ===== src/Indexer.antt =====
-- backend/src/services/eventIndexer.ts: from the events of the chain to the tables.
pub mod Types
pub mod Values
pub mod Parse
pub mod Store
pub mod Fetch
pub mod Poll
pub mod Reindex
