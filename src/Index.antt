-- ===== src/Index.antt =====
-- crates/jet3/src/index: the bytes of index keys and of the records that hold them.
pub mod Order
pub mod Key
pub mod Entry
mod Examples
