-- ===== src/Scheduler.antt =====
-- packages/vyne/src/vyne/scheduler.py: the commit coordinator, the state journal, the
-- acknowledgement map and the pass guard of one renderer.
pub mod Coordinator
pub mod Promotion
pub mod Commands
pub mod Journal
pub mod Acks
pub mod Passes
mod Examples
