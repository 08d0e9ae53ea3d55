-- ===== src/Row/WriteError.antt =====
-- crates/jet3/src/write/error.rs: the errors that the operations on rows give, and those of the driver
-- between them. The other variants wrap the errors of parts that are not modelled.
use jet3_rs.Common.{ℕ, List, Option, String}
use jet3_rs.Common.Int.{ℤ}
use jet3_rs.Format.PageImage.{PageImageError}
use jet3_rs.Format.Error.{Error}
use jet3_rs.Row.Directory.{RowDirectoryError}

pub data WriteError : Type 0 where
  page_image : PageImageError → WriteError
  not_found : String → WriteError
  unsupported : String → WriteError
  mismatch : String → WriteError
  relationship_constraint : (parent child : ℕ) → (value : ℤ) → WriteError
  scalar_relationship_constraint : (parent child : ℕ) → WriteError
  null_relationship_constraint : (parent child : ℕ) → WriteError
  unsupported_sort_order : (raw : List ℕ) → WriteError
  validation_rule : (column : Option ℕ) → WriteError
  resource : Error → WriteError
  directory : RowDirectoryError → WriteError
