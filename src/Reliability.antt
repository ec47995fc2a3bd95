-- ===== src/Reliability.antt =====
-- model-control-plane/src/sentinelaegisforge_control_plane/reliability.
pub mod Retention
pub mod Backlog
mod Examples
