-- ===== src/Recovery.antt =====
-- packages/vyne/src/vyne/recovery.py and the recovery side of runtime.py: the complete snapshot of a
-- tree, and the states of the synchronization.
pub mod Sorting
pub mod Snapshots
pub mod Listening
pub mod Placing
pub mod Rebuild
pub mod Resync
pub mod Validity
pub mod States
pub mod Faults
pub mod Acks
pub mod Publishing
mod Examples
