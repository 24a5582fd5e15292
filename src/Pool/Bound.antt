-- ===== src/Pool/Bound.antt =====
-- How many connections the pool has.
mod Checkouts
mod Steps
pub use Checkouts.*
pub use Steps.*
