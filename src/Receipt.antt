-- ===== src/Receipt.antt =====
-- Receipts: evidence of one run, sealed by a digest (src/receipt.rs).
pub mod Status
pub mod Failure
pub mod Data
pub mod Fields
pub mod Timestamp
pub mod Common
pub mod Manifest
pub mod Envelope
