-- ===== src/Row/Edit.antt =====
-- crates/jet3/src/row/delete_page.rs and update_page.rs: rows removed from a page and replaced on it.
-- The slots keep their numbers, and the rows below the changed one move.
pub mod Slots
pub mod Words
pub mod Parts
pub mod Facts
pub mod Rows
pub mod Moved
pub mod Removed
pub mod Replacing
pub mod Rewritten
pub mod Replaced
pub mod Refined
pub mod Released
pub mod Examples
use jet3_rs.Common.{
  ℕ, zero, suc, ◌+◌, ◌-◌, ◌*◌, ◌%◌, ◌^◌, ltb, leb, ◌==◌, if◌then◌else◌, Bool, true, false, not,
  ◌&&◌, ◌||◌, Option, none, some, List, [], ◌∷◌, length, slice, bit_or, String,
}
use jet3_rs.Common.Results.{
  Result, ok, err, Outcome, done, fail, Op, ◌>>=◌, ◌>>◌, ok_or, and_then, on_error, return, throw,
  lift, refuse_if,
}
use jet3_rs.Format.Offset.{checked_add, checked_sub}
use jet3_rs.Format.Resource.{ResourceBudget, charge_work_units}
use jet3_rs.Format.DataPageDirectory.{page_bytes}
use jet3_rs.Format.PageImage.{PageImage, write_at}
use jet3_rs.Row.Directory.{RowEntry}
use jet3_rs.Row.Slot.{RowSlot, ordinary, deleted, flags, check_length, read}
use jet3_rs.Row.WriteError.{WriteError, resource, mismatch, not_found, unsupported}
use jet3_rs.Row.DataPage.{DataPageEditor, Packed, entry, live_rows, packed, write_slot, write_free}
use jet3_rs.Row.Insert.{on_copy, as_u16, is_some, state_or_ordinary, is_deleted}

abbrev pub tombstone : ℕ
tombstone = 0xc000

abbrev released_page_tag : ℕ
released_page_tag = 0x09

pub data Deletion : Type 0 where
  retained released : PageImage → Deletion

unfoldable pub into_image : Deletion → PageImage
into_image (retained image) = image
into_image (released image) = image

-- The loop over the slots from `ordinal` on, each with its new word.
unfoldable pub write_slots :
    (ℕ → Result WriteError ℕ) → ℕ → ℕ → Op WriteError (PageImage × ResourceBudget) (Unit {0})
write_slots word_of zero ordinal = return tt
write_slots word_of (suc left) ordinal = lift (word_of ordinal) >>= λ word.
    write_slot ordinal word >> write_slots word_of left (suc ordinal)

-- `.checked_add(..).filter(|v| *v <= PAGE_BYTES)` and its error.
abbrev inside_page : Option ℕ → String → Result WriteError ℕ
inside_page none message = err (mismatch message)
inside_page (some v) message = if leb v page_bytes then ok v else err (mismatch message)

-- The word of a slot behind the removed one, or of the removed one itself.
unfoldable pub remove_word : DataPageEditor → ℕ → ℕ → ℕ → ℕ → Result WriteError ℕ
remove_word editor slot end removed ordinal = and_then (entry editor (ordinal % 256)) λ e.
    and_then
      (if ordinal == slot
        then ok end
        else inside_page (checked_add e.start removed) "compacted row offset")
      λ start.
        and_then
          (if ordinal == slot then ok tombstone else and_then (read e) (λ kind. ok (flags kind)))
          λ kept.
            and_then (ok_or (as_u16 start) (mismatch "tombstone offset")) λ at. ok (bit_or at kept)

-- The writes that release a page: its tag, a tombstone in each slot, and the free bytes.
unfoldable pub release_writes : ℕ → ℕ → Op WriteError (PageImage × ResourceBudget) (Unit {0})
unfolding write_slots
release_writes count new_free =
    (λ s. on_error resource (write_at 0 (released_page_tag ∷ []) s))
    >> (write_slots (λ ordinal. ok (bit_or tombstone page_bytes)) count 0 >> write_free new_free)

-- The writes that keep a page: the rows below the removed one move upwards.
unfoldable pub remove_writes :
    DataPageEditor → ℕ → ℕ → ℕ → ℕ → ℕ → Op WriteError (PageImage × ResourceBudget) (Unit {0})
unfolding write_slots remove_word
remove_writes editor slot start end lowest new_free =
    let count = editor.directory.inner.row_count in
    let removed = end - start in
    (λ s. on_error resource (write_at (lowest + removed) (slice editor.source lowest start) s))
    >> (write_slots (remove_word editor slot end removed) (count - slot) slot
        >> write_free new_free)

-- `remove` from where the gap and the number of live rows are known.
unfoldable pub remove_into :
    DataPageEditor → ℕ → ℕ → ℕ → ℕ → Packed → Op WriteError ResourceBudget Deletion
unfolding release_writes remove_writes
remove_into editor slot start end live gap = do
  let removed = end - start
  new_free ← lift (ok_or (as_u16 (gap.free + removed)) (mismatch "free-byte range"))
  if live == 1
      then (do
        image ← on_copy editor.source (release_writes editor.directory.inner.row_count new_free)
        return (released image))
      else (do
        λ budget. on_error resource (charge_work_units (start - gap.lowest) budget)
        image ← on_copy editor.source (remove_writes editor slot start end gap.lowest new_free)
        return (retained image))

-- `DataPageEditor::remove`.
unfoldable pub remove : DataPageEditor → ℕ → Bool → Op WriteError ResourceBudget Deletion
unfolding remove_into
remove editor slot physical = do
  target ← lift (entry editor slot)
  λ budget. on_error resource (charge_work_units (2 * editor.directory.inner.row_count) budget)
  live ← lift (live_rows editor physical "page contains an unsupported row slot")
  refuse_if (leb target.end target.start) (not_found "live row slot")
  gap ← lift (packed editor "data page free-byte count")
  remove_into editor slot target.start target.end live gap

-- `.checked_add(old).and_then(|v| v.checked_sub(new))`.
abbrev pub shifted : ℕ → ℕ → ℕ → Option ℕ
shifted v old new = elim (checked_add v old) [ none ↦ none | some sum ↦ checked_sub sum new ]

-- The word of a slot from the replaced one on, for the lengths of the old and the new row.
unfoldable pub replace_word : DataPageEditor → ℕ → RowSlot → ℕ → ℕ → ℕ → Result WriteError ℕ
replace_word editor slot state old new ordinal = and_then (entry editor (ordinal % 256)) λ e.
    and_then (inside_page (shifted e.start old new) "replacement slot offset") λ offset.
      and_then
        (if ordinal == slot then ok (flags state) else and_then (read e) (λ kind. ok (flags kind)))
        λ kept.
          and_then (ok_or (as_u16 offset) (mismatch "replacement slot width"))
            λ at. ok (bit_or at kept)

-- The writes of `replace`: the rows below move, the row is written where the old one ended, then the
-- slots and the free bytes.
unfoldable pub replace_writes :
    DataPageEditor
    → ℕ
    → ℕ
    → ℕ
    → List ℕ
    → RowSlot
    → Packed
    → ℕ
    → Op WriteError (PageImage × ResourceBudget) (Unit {0})
unfolding write_slots replace_word
replace_writes editor slot start end encoded state gap new_free =
    let count = editor.directory.inner.row_count in
    (λ s.
      on_error resource
        (write_at (gap.directory_end + new_free) (slice editor.source gap.lowest start) s))
    >> ((λ s. on_error resource (write_at (end - length encoded) encoded s))
        >> (write_slots (replace_word editor slot state (end - start) (length encoded))
              (count - slot) slot
            >> (lift (ok_or (as_u16 new_free) (mismatch "replacement free-byte width"))
                >>= write_free)))

-- `replace` from where the new number of free bytes is known.
unfoldable pub replace_into :
    DataPageEditor
    → ℕ
    → ℕ
    → ℕ
    → List ℕ
    → RowSlot
    → Packed
    → ℕ
    → Op WriteError ResourceBudget (Option PageImage)
unfolding replace_writes
replace_into editor slot start end encoded state gap new_free = do
  lift (check_length state (length encoded))
  refuse_if (length encoded == 0) (unsupported "empty replacement row")
  refuse_if (ltb end (length encoded)) (mismatch "replacement row boundary")
  λ budget. on_error resource (charge_work_units (start - gap.lowest) budget)
  image ← on_copy editor.source (replace_writes editor slot start end encoded state gap new_free)
  return (some image)

abbrev is_ordinary : RowSlot → Bool
is_ordinary ordinary = true
is_ordinary slot = false

-- `DataPageEditor::replace`.
unfoldable pub replace :
    DataPageEditor → ℕ → List ℕ → Option RowSlot → Op WriteError ResourceBudget (Option PageImage)
unfolding replace_into
replace editor slot encoded physical = do
  target ← lift (entry editor slot)
  previous ← lift (read target)
  refuse_if (is_deleted previous || (not (is_some physical) && not (is_ordinary previous)))
      (unsupported "replacement target is not an ordinary live row")
  λ budget. on_error resource (charge_work_units (2 * editor.directory.inner.row_count) budget)
  live ←
      lift (live_rows editor (is_some physical) "replacement page contains an unsupported row slot")
  gap ← lift (packed editor "replacement free-byte count")
  elim (shifted gap.free (target.end - target.start) (length encoded)) [
    | none ↦ return none
    | some new_free ↦
        replace_into editor slot target.start target.end encoded (state_or_ordinary physical) gap
          new_free
  ]
