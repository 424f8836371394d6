-- ===== src/DefaultChecker.antt =====
-- backend/src/services/defaultChecker.ts: which loans are overdue, how they are sent in batches, and the lock
-- that keeps runs apart.
pub mod Lock
pub mod Overdue
pub mod Batches
pub mod Workers
pub mod Run
