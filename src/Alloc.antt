-- ===== src/Alloc.antt =====
-- crates/jet3/src/alloc: allocation maps, their records, and the rows that hold them.
pub mod Bitmap
pub mod Map
pub mod Encoder
pub mod UsageMap
pub mod Examples
