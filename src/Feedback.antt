-- ===== src/Feedback.antt =====
-- model-control-plane/src/sentinelaegisforge_control_plane/feedback.
pub mod Contract
pub mod Ingestion
pub mod Resolution
pub mod Monitoring
