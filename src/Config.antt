-- ===== src/Config.antt =====
-- Configuration and its normalisation to an execution plan (src/config.rs).
pub mod Data
pub mod Failure
pub mod Fields
pub mod Runtime
pub mod Caches
pub mod Environment
pub mod Checks
pub mod Topology
pub mod Storage
pub mod Isolation
pub mod Plan
