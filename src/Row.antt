-- ===== src/Row.antt =====
-- crates/jet3/src/row: rows as pages store them.
pub mod WriteError
pub mod Directory
pub mod Slot
pub mod DataPage
pub mod Insert
pub mod Edit
mod Examples
pub mod Value
pub mod Layout
