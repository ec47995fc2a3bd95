-- ===== src/Availability.antt =====
-- model-control-plane/src/sentinelaegisforge_control_plane/availability.
pub mod Contract
pub mod Discovery
pub mod Outbox
pub mod KafkaExport
