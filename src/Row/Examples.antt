-- ===== src/Row/Examples.antt =====
-- A page of table 0 with one row and one deleted slot, and row slots and pointers at concrete values.
use jet3_rs.Common.{
  ℕ, ◌+◌, ◌<◌, ◌≡◌, ◌^◌, refl, arith, List, [], ◌∷◌, ◌++◌, replicate, length, Option, false, slice,
  String,
}
use jet3_rs.Common.Results.{ok, done}
use jet3_rs.Format.Resource.{ResourceBudget, default_limits, new_budget, charge_items}
use jet3_rs.Format.DataPageDirectory.{
  DataPageDirectory, next_entry, validate_rows, validate_entry, has_flag, directory_end_of,
  free_space_offset, raw_offset,
}
use jet3_rs.Format.DataPageDirectory as Common_directory
use jet3_rs.Row.Directory.{
  RowDirectory, RowEntry, RowLocator, validate, validate_owner, check_pointers, next_primary,
}
use jet3_rs.Row.Directory as Row_directory
use jet3_rs.Row.Directory.Validation.{row_directory_iff}
use jet3_rs.Row.Directory.Primary.{FirstVisible, standing_at, next_primary_lem}
use jet3_rs.Row.Slot.{link, flags, check_length, read, overflow_pointer, decode_pointer}
use jet3_rs.Row.Slot.Flags.{entry_of_word, read-flags}
use jet3_rs.Row.Slot.Links.{decode_pointer-overflow_pointer}
use jet3_rs.Row.DataPage.{
  DataPageEditor, Packed, open_page, entry, live_row, live_rows_from, live_rows, packed,
}
use jet3_rs.Row.DataPage.Live.{rows_with_bytes, live_rows-rows_with_bytes}
use jet3_rs.Row.DataPage.Space.{packed_iff}
use jet3_rs.Common.{copy_at, none, some}
use jet3_rs.Common.Bytes.{u16_at}
use jet3_rs.Format.Resource.{charge_encoded_bytes}
use jet3_rs.Format.Writer.{seek, write_exact}
use jet3_rs.Format.PageImage.{PageImage, write_at, write_field}
use jet3_rs.Row.DataPage.{write_slot, write_free}
use jet3_rs.Row.Insert.{append, append_into, append_writes, state_or_ordinary}
use jet3_rs.Format.Resource.Accounting.{HasU64Limits}
use jet3_rs.Row.Edit.Rows.{row_of}
use jet3_rs.Row.Insert.Refined.{append-row_of}
use jet3_rs.Row.Insert.Appended.{IsAppended, append-IsAppended}

abbrev page : List ℕ
page = 1 ∷ 0 ∷ 0xee ∷ 7 ∷ replicate 4 0 ++ (2 ∷ 0 ∷ 0xfc ∷ 7 ∷ 0xfc ∷ 0xc7 ∷ replicate 2034 9)

abbrev budget : ResourceBudget
budget = new_budget default_limits

abbrev paid : ResourceBudget
paid = record budget { item_work = 2; total_work_units = 2 }

abbrev directory : RowDirectory
directory = record { page = 5; inner = record { row_count = 2; next_row = 0 } }

page_validates : validate 5 0 page budget ≡ done directory paid
unfolding validate validate_owner slice check_pointers next_entry Common_directory.entry
    Common_directory.validate validate_rows validate_entry charge_items
page_validates = refl

row_directory_iff_example : Common_directory.validate page budget ≡ done directory.inner paid
row_directory_iff_example = ((row_directory_iff 5 0 page budget paid directory).0 page_validates).2

next_primary_lem_example :
    (found : Option RowEntry) × (after : RowDirectory) × (next_primary 3 page
        (standing_at directory 0)
      ≡ done found after)
    × FirstVisible directory page 0 found after
next_primary_lem_example =
    next_primary_lem 3 page directory 0 (omega arith) (omega arith) (omega arith)

abbrev here : RowLocator
here = record { page = 77; slot = 3 }

read-flags_example : read (entry_of_word here (2000 + flags link) 2000 2004) ≡ ok link
unfolding check_length
read-flags_example = read-flags link here 2000 2004 (omega arith) refl

decode_pointer-overflow_pointer_example :
    (77 < 2 ^ 24)
    × (length {A = ℕ} (3 ∷ 77 ∷ 0 ∷ 0 ∷ []) ≡ 4)
    × (decode_pointer (3 ∷ 77 ∷ 0 ∷ 0 ∷ []) ≡ here)
unfolding overflow_pointer
decode_pointer-overflow_pointer_example =
    decode_pointer-overflow_pointer here (3 ∷ 77 ∷ 0 ∷ 0 ∷ []) refl

abbrev editor : DataPageEditor
editor = record { source = page; directory = directory }

abbrev message : String
message = "page contains an unsupported row slot"

live_rows-rows_with_bytes_example : 1 ≡ rows_with_bytes page 2 0
unfolding live_rows live_rows_from live_row entry Row_directory.entry Common_directory.entry
live_rows-rows_with_bytes_example =
    live_rows-rows_with_bytes editor false message 1 (omega arith) refl

page_opens : open_page 5 0 page budget ≡ done editor paid
unfolding open_page validate validate_owner slice check_pointers next_entry Common_directory.entry
    Common_directory.validate validate_rows validate_entry charge_items
page_opens = refl

abbrev gap : Packed
gap = record { lowest = 2044; directory_end = 14; free = 2030 }

packed_iff_example : packed editor message ≡ ok gap
packed_iff_example =
    (packed_iff 5 0 page budget paid editor message gap page_opens).1
      (omega arith, refl, refl, refl, refl)

abbrev row : List ℕ
row = 3 ∷ 4 ∷ []

abbrev longer : PageImage
longer = record {
  bytes =
      1 ∷ 0 ∷ 0xea ∷ 7 ∷ replicate 4 0
      ++ (3 ∷ 0 ∷ 0xfc ∷ 7 ∷ 0xfc ∷ 0xc7 ∷ 0xfa ∷ 7 ∷ replicate 2026 9 ++ (3 ∷ 4 ∷ replicate 4 9));
}

abbrev spent : ResourceBudget
spent = record budget { item_work = 2; encoded_bytes = 8; total_work_units = 10 }

row_appended : append editor row none budget ≡ done (some (longer, 2)) spent
unfolding append append_into append_writes write_slot write_free live_rows live_rows_from live_row
    entry Row_directory.entry Common_directory.entry packed check_length flags charge_items
    charge_encoded_bytes write_at write_field seek write_exact copy_at
row_appended = refl

limits_u64 : HasU64Limits default_limits
limits_u64 = record {
  allocation_u64 = omega arith;
  decoded_u64 = omega arith;
  encoded_u64 = omega arith;
  items_u64 = omega arith;
  visits_u64 = omega arith;
  work_u64 = omega arith;
}

append-IsAppended_example :
    (2 ≡ u16_at page 8) × IsAppended page longer.bytes row (state_or_ordinary none)
append-IsAppended_example =
    append-IsAppended 5 0 page row none budget paid budget spent editor longer 2 page_opens refl
      limits_u64 row_appended

append-row_of_example :
    (2 ≡ u16_at page 8) × (u16_at longer.bytes 8 ≡ 3) × (row_of longer.bytes 2 ≡ row)
append-row_of_example =
    append-row_of 5 0 page row none budget paid budget spent editor longer 2 2 page_opens refl
      limits_u64 row_appended (omega arith)
