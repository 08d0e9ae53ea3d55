-- ===== src/Row/DataPage.antt =====
-- crates/jet3/src/row/data_page.rs: the editor of a data page, its live rows, its free bytes, and the
-- row count of a table definition.
pub mod Live
pub mod Space
pub mod Writing
use jet3_rs.Common.{
  ℕ, zero, suc, ◌+◌, ◌-◌, ◌*◌, ◌%◌, ◌^◌, ltb, leb, ◌==◌, if◌then◌else◌, Bool, true, false, not,
  ◌&&◌, ◌||◌, Option, none, some, List, slice, String,
}
use jet3_rs.Common.Bytes.{u16_at, to_le_bytes, from_le_bytes}
use jet3_rs.Common.Results.{
  Result, ok, err, and_then, map_err, ok_or, Op, ◌>>=◌, ◌>>◌, on_error, return, lift, refuse_if,
}
use jet3_rs.Format.Geometry.{PageNumber}
use jet3_rs.Format.Offset.{checked_add}
use jet3_rs.Format.Resource.{ResourceBudget}
use jet3_rs.Format.PageImage.{PageImage, write_at, max_built_rows}
use jet3_rs.Format.DataPageDirectory.{
  free_space_offset, row_count_offset, directory_offset, entry_len, directory_end_of,
}
use jet3_rs.Row.Directory.{RowDirectory, RowEntry}
use jet3_rs.Row.Directory as Row_directory
use jet3_rs.Row.Slot.{RowSlot, deleted, read}
use jet3_rs.Row.WriteError.{WriteError, directory, resource, unsupported, mismatch}

pub record DataPageEditor : Type 0 where
  pub source : List ℕ
  pub directory : RowDirectory

pub record Packed : Type 0 where
  pub lowest : ℕ
  pub directory_end : ℕ
  pub free : ℕ

unfoldable pub open_page :
    PageNumber → PageNumber → List ℕ → Op WriteError ResourceBudget DataPageEditor
open_page page owner source = do
  d ← λ budget. on_error WriteError.directory (Row_directory.validate page owner source budget)
  return (record { source = source; directory = d })

unfoldable pub entry : DataPageEditor → ℕ → Result WriteError RowEntry
entry editor slot =
    map_err WriteError.directory (Row_directory.entry editor.directory editor.source slot)

abbrev is_deleted : RowSlot → Bool
is_deleted deleted = true
is_deleted slot = false

-- What one row adds to the count; a range is empty when its start is not below its end.
unfoldable pub live_row : Bool → String → RowEntry → Result WriteError ℕ
live_row true message e = and_then (read e) λ slot. ok (if is_deleted slot then 0 else 1)
live_row false message e =
    let is_empty = leb e.end e.start in
    if e.hidden && (e.overflow && is_empty)
    then ok 0
    else if e.hidden || (e.overflow || is_empty)
    then err (unsupported message)
    else ok 1

-- The loop of `live_rows` with `left` rows to go; `ordinal as u8` keeps the low eight bits.
unfoldable pub live_rows_from : DataPageEditor → Bool → String → ℕ → ℕ → ℕ → Result WriteError ℕ
live_rows_from editor physical message zero ordinal live = ok live
live_rows_from editor physical message (suc left) ordinal live =
    and_then (entry editor (ordinal % 256)) λ e.
      and_then (live_row physical message e)
        λ one. live_rows_from editor physical message left (suc ordinal) (live + one)

unfoldable pub live_rows : DataPageEditor → Bool → String → Result WriteError ℕ
live_rows editor physical message =
    live_rows_from editor physical message editor.directory.inner.row_count 0 0

unfoldable pub packed : DataPageEditor → String → Result WriteError Packed
packed editor message =
    let count = editor.directory.inner.row_count in
    if count == 0
    then err (mismatch message)
    else and_then (entry editor ((count - 1) % 256)) λ last.
      let lowest = last.start in
      let directory_end = directory_end_of count in
      let free = u16_at editor.source free_space_offset in
      if free == lowest - directory_end
      then ok (record { lowest = lowest; directory_end = directory_end; free = free })
      else err (mismatch message)

unfoldable pub write_slot : ℕ → ℕ → Op WriteError (PageImage × ResourceBudget) (Unit {0})
write_slot ordinal word s =
    on_error resource (write_at (directory_offset + entry_len * ordinal) (to_le_bytes 2 word) s)

unfoldable pub write_free : ℕ → Op WriteError (PageImage × ResourceBudget) (Unit {0})
write_free free s = on_error resource (write_at free_space_offset (to_le_bytes 2 free) s)

unfoldable pub has_capacity : List ℕ → ℕ → Bool
has_capacity page minimum =
    let count = u16_at page row_count_offset in
    let free = u16_at page free_space_offset in
    ltb count max_built_rows
    && elim (checked_add minimum entry_len) [ none ↦ false | some n ↦ leb n free ]
