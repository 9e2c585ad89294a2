-- ===== src/Runtime.antt =====
-- gfc/runtime.py: the runtime object.
pub mod State
pub mod Registry
pub mod Layout
pub mod Paths
pub mod Collectives
pub mod PointToPoint
pub mod Init
