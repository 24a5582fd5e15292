-- ===== src/Connection/Bounds.antt =====
-- How much a connection of src/connection.ts has in flight.
pub mod Load
mod Dispatching
mod Finishing
pub mod Steps
