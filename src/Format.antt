-- ===== src/Format.antt =====
-- crates/jet3/src/format: errors, checked arithmetic, budgets, cursors and page grammars.
pub mod Error
pub mod Offset
pub mod Limits
pub mod Resource
pub mod Cursor
pub mod Writer
pub mod Words
pub mod Geometry
pub mod PageKind
pub mod CommitState
pub mod DataPageDirectory
pub mod Text
pub mod PageImage
mod Examples
