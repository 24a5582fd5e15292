-- ===== src/Connection.antt =====
-- src/connection.ts: one connection, its queue of tasks and its lifecycle.
pub mod State
pub mod Serialize
pub mod Dispatch
pub mod Cancel
pub mod Finish
pub mod Events
pub mod Held
pub mod Bounds
pub mod Order
pub mod Stream
pub mod Bulk
