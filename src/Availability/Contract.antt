-- ===== src/Availability/Contract.antt =====
-- availability/contract.py: the versions and the limit.
use sentinel_aegis_forge.Common.{ℕ, String}

abbrev pub ready_version : String
ready_version = "feature-availability-v1"

abbrev pub segment_version : String
segment_version = "feature-commit-segment-v1"

abbrev pub outbox_version : String
outbox_version = "feature-ready-outbox-v1"

abbrev pub discovery_version : String
discovery_version = "delta-snapshot-difference-v1"

abbrev pub max_ready_events : ℕ
max_ready_events = 5000
