-- ===== src/Row/Insert.antt =====
-- crates/jet3/src/row/insert_page.rs: `DataPageEditor::append`, a row added to a page that has rows.
pub mod Writes
pub mod Bytes
pub mod Page
pub mod Appended
pub mod Refined
use jet3_rs.Common.{
  ℕ, ◌+◌, ◌-◌, ◌*◌, ◌%◌, ◌^◌, ltb, leb, ◌==◌, if◌then◌else◌, Bool, true, false, ◌||◌, Option, none,
  some, List, length, bit_or,
}
use jet3_rs.Common.Bytes.{to_le_bytes}
use jet3_rs.Common.Results.{
  Result, ok, err, Outcome, done, fail, Op, ◌>>=◌, ◌>>◌, ok_or, on_error, return, throw, lift,
  refuse_if,
}
use jet3_rs.Format.Offset.{checked_add, checked_sub}
use jet3_rs.Format.Resource.{ResourceBudget, charge_items}
use jet3_rs.Format.DataPageDirectory.{row_count_offset, entry_len}
use jet3_rs.Format.PageImage.{PageImage, write_at, max_built_rows}
use jet3_rs.Row.Slot.{RowSlot, ordinary, deleted, flags, check_length}
use jet3_rs.Row.WriteError.{WriteError, resource, mismatch}
use jet3_rs.Row.DataPage.{DataPageEditor, Packed, live_rows, packed, write_slot, write_free}

abbrev pub is_some {ℓ} : {A : Type ℓ} → Option A → Bool
is_some none = false
is_some (some a) = true

abbrev pub state_or_ordinary : Option RowSlot → RowSlot
state_or_ordinary none = ordinary
state_or_ordinary (some slot) = slot

abbrev pub is_deleted : RowSlot → Bool
is_deleted deleted = true
is_deleted slot = false

-- `u16::try_from`.
abbrev pub as_u16 : ℕ → Option ℕ
as_u16 n = if ltb n (2 ^ 16) then some n else none

-- The four writes into the copy of the page; the row count is written last.
unfoldable pub append_writes :
    List ℕ → ℕ → ℕ → ℕ → ℕ → Op WriteError (PageImage × ResourceBudget) (Unit {0})
append_writes row start count word new_free = do
  λ s. on_error resource (write_at start row s)
  write_slot count word
  write_free new_free
  λ s. on_error resource (write_at row_count_offset (to_le_bytes 2 (count + 1)) s)

-- The copy is given up when a write fails.
abbrev pub copied :
    Outcome WriteError (PageImage × ResourceBudget) (Unit {0})
    → Outcome WriteError ResourceBudget PageImage
copied (done _ s) = done (s.0) (s.1)
copied (fail e s) = fail e (s.1)

abbrev pub on_copy :
    List ℕ
    → Op WriteError (PageImage × ResourceBudget) (Unit {0})
    → Op WriteError ResourceBudget PageImage
on_copy source m budget = copied (m (record { bytes = source }, budget))

-- `append` from where the gap and the slot's kind are known.
unfoldable pub append_into :
    DataPageEditor
    → List ℕ
    → RowSlot
    → Packed
    → Op WriteError ResourceBudget (Option (PageImage × ℕ))
append_into editor row state gap = do
  let count = editor.directory.inner.row_count
  lift (check_length state (length row))
  refuse_if (is_deleted state) (mismatch "appending a deleted row")
  needed ← lift (ok_or (checked_add (length row) entry_len) (mismatch "row width"))
  if leb max_built_rows count || ltb gap.free needed then return none else (do
    start ← lift (ok_or (checked_sub gap.lowest (length row)) (mismatch "row start"))
    new_free ← lift (ok_or (as_u16 (gap.free - needed)) (mismatch "free bytes"))
    at ← lift (ok_or (as_u16 start) (mismatch "row offset"))
    image ← on_copy editor.source (append_writes row start count (bit_or at (flags state)) new_free)
    return (some (image, count % 256)))

unfoldable pub append :
    DataPageEditor → List ℕ → Option RowSlot → Op WriteError ResourceBudget (Option (PageImage × ℕ))
append editor row physical =
    let count = editor.directory.inner.row_count in
    if count == 0 then return none else (do
      λ budget. on_error resource (charge_items count budget)
      live ← lift (live_rows editor (is_some physical) "page contains nonordinary row slots")
      if live == 0 then return none else (do
        gap ← lift (packed editor "data page free-byte count")
        append_into editor row (state_or_ordinary physical) gap))
