-- ===== src/Incremental.antt =====
-- model-control-plane/src/sentinelaegisforge_control_plane/incremental_shadow.
pub mod Stream
pub mod Fence
pub mod Acceptance
pub mod Outcomes
pub mod Records
pub mod Progress
pub mod Publication
pub mod Reconciliation
mod Examples
