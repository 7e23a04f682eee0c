-- ===== src/Resource.antt =====
-- The host resource guard of src/resource.rs.
pub mod Snapshot
pub mod Status
pub mod Observation
pub mod Probe
pub mod Sample
pub mod Watchdog
pub mod Thread
