-- ===== src/Replication.antt =====
-- src/replication.ts: the receiving half of logical replication.
pub mod Batch
pub mod Flow
pub mod Position
