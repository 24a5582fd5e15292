-- ===== src/Pool/Ownership.antt =====
-- Where each connection of the pool is.
mod Moves
mod Checkouts
mod Steps
pub use Moves.*
pub use Checkouts.*
pub use Steps.*
