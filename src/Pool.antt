-- ===== src/Pool.antt =====
-- src/pool.ts: the connection pool with its circuit breaker.
pub mod State
pub mod Breaker
pub mod Checkin
pub mod Acquire
pub mod Events
pub mod Kept
pub mod Ownership
pub mod Bound
pub mod Recovery
