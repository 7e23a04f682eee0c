-- ===== src/Canonical.antt =====
-- Canonical JSON and its digest (src/receipt.rs).
pub mod Json
pub mod Digest
