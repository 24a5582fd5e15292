-- ===== src/Connection/Held.antt =====
-- Who answers for a promise: the tasks that the connection of src/connection.ts holds.
pub mod View
mod Settling
mod Closing
mod Down
mod Dispatching
mod Canceling
mod Resolving
mod Retrying
mod Finishing
mod Heads
mod Lifecycle
mod Ending
pub mod Steps
