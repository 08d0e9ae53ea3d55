-- ===== src/Format/Examples.antt =====
-- The theorems of crates/jet3/src/format applied to concrete inputs.
mod Budgets
mod Streams
mod Pages
mod Directories
mod Images
