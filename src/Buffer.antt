-- ===== src/Buffer.antt =====
-- The runtime's Buffer as the driver uses it: fixed-size memory, big-endian integers, UTF-8.
mod Memory
mod Words
mod Utf8
unfoldable pub use Memory.*
unfoldable pub use Words.*
unfoldable pub use Utf8.*
