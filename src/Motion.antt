-- ===== src/Motion.antt =====
-- packages/vyne/src/vyne/motion.py: the commands that control animations, and their operations.
pub mod Specs
pub mod Commands
pub mod Domains
pub mod Constructed
pub mod Cancelling
pub mod Lowered
pub mod Validity
pub mod DriverValidity
pub mod Sending
mod Examples
