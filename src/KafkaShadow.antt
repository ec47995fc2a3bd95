-- ===== src/KafkaShadow.antt =====
-- model-control-plane/src/sentinelaegisforge_control_plane/kafka_shadow.
pub mod Inbox
pub mod Results
pub mod Worker
