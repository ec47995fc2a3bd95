-- ===== src/Monitoring.antt =====
-- The package monitoring: distributions of two cohorts.
pub mod Distributions
