-- ===== src/Validation.antt =====
-- The validation package, model-control-plane/src/sentinelaegisforge_control_plane/validation.
pub mod Policy
