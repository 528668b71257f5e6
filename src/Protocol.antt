-- ===== src/Protocol.antt =====
-- packages/vyne/src/vyne/protocol.py: the validation of the messages that cross the bridge.
pub mod Values
pub mod Checks
pub mod Operations
pub mod Motion
pub mod Bridge
pub mod Commits
pub mod Events
pub mod Encoding
mod Examples
