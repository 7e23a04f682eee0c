-- ===== src/Verify.antt =====
-- Verification of a receipt against repository policy (src/verify.rs).
pub mod Policy
pub mod Utc
pub mod Report
pub mod Evaluate
pub mod Document
pub mod PlanDiff
pub mod Trusted
pub mod Load
