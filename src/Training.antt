-- ===== src/Training.antt =====
-- model-control-plane/src/sentinelaegisforge_control_plane/training: the temporal cohorts.
pub mod Temporal
