-- ===== src/VirtualLists.antt =====
-- packages/vyne/src/vyne/_lists: the geometry, layouts, realization policy and keys of a virtual list.
pub mod Geometry
pub mod Requests
pub mod FixedLinear
pub mod Selection
pub mod Source
mod Examples
