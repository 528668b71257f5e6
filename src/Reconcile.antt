-- ===== src/Reconcile.antt =====
-- packages/vyne/src/vyne/reconcile.py and render_model.py: from the accepted tree and a desired
-- element tree to a list of native operations and the next tree.
pub mod Model
pub mod Shadow
pub mod Planner
pub mod Diff
pub mod Native
pub mod Effects
pub mod Simulation
pub mod Steps
pub mod Trees
pub mod Create
pub mod Growth
pub mod Created
pub mod Mount
mod Examples
