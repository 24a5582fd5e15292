-- ===== src/Tests.antt =====
-- Runs on concrete inputs, and the theorems at concrete inputs.
pub mod Protocol
pub mod Rows
pub mod Pool
pub mod Arrays
pub mod Cursor
pub mod Connection
pub mod Streams
pub mod Replication
pub mod Bulk
