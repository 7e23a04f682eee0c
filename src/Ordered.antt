-- ===== src/Ordered.antt =====
-- Rust's ordered collections of texts: `BTreeSet<String>` and `BTreeMap<String, _>`.
pub mod Order
pub mod Set
pub mod Map
