-- ===== src/Protocol.antt =====
-- src/protocol.ts: the frontend/backend wire protocol, version 3, message framing only.
pub mod Result
pub mod Messages
pub mod Writer
pub mod Write
pub mod Parser
pub mod Rows
