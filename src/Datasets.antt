-- ===== src/Datasets.antt =====
-- model-control-plane/src/sentinelaegisforge_control_plane/datasets: time and the labels.
pub mod Time
pub mod Timestamp
pub mod Labels
pub mod Rows
mod Examples
