-- ===== src/Tests.antt =====
-- Concrete receipts, policies and configurations, and the properties at them.
mod Samples
mod Decisions
mod Configurations
mod Plans
mod Paths
mod Resources
mod Journals
mod Recoveries
mod Roots
