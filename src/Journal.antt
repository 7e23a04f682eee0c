-- ===== src/Journal.antt =====
-- The run journal of src/run_journal.rs, on the files of src/durable_fs.rs.
pub mod Data
pub mod Fields
pub mod Files
pub mod Reading
pub mod Store
pub mod Resources
pub mod Root
pub mod Token
pub mod Ownership
pub mod Opening
pub mod Names
pub mod Path
pub mod Bounds
pub mod Insertion
pub mod Appended
pub mod Transition
pub mod Durability
pub mod Written
pub mod Crash
pub mod Rename
pub mod Recovery
pub mod Quarantined
