-- ===== src/Row/Edit/Examples.antt =====
-- A page of table 0 with a row of four bytes and a row of three, and changes of its first row.
use jet3_rs.Common.{
  ℕ, ◌<◌, ◌≡◌, refl, arith, List, [], ◌∷◌, ◌++◌, replicate, some, none, false, slice, copy_at,
}
use jet3_rs.Common.Bytes.{AllBytes, AllBytes-append, replicate-AllBytes}
use jet3_rs.Common.Results.{done}
use jet3_rs.Format.Resource.{
  ResourceBudget, default_limits, new_budget, charge_items, charge_work_units, charge_encoded_bytes,
}
use jet3_rs.Format.Resource.Charges.{items, work, encoded}
use jet3_rs.Format.Resource.Accounting.{HasU64Limits, spend}
use jet3_rs.Format.DataPageDirectory.{declared_row_count, next_entry, validate_rows, validate_entry}
use jet3_rs.Format.DataPageDirectory as Common_directory
use jet3_rs.Format.Writer.{seek, write_exact}
use jet3_rs.Format.PageImage.{PageImage, write_at, write_field}
use jet3_rs.Row.Directory.{validate, validate_owner, check_pointers}
use jet3_rs.Row.Directory as Row_directory
use jet3_rs.Row.Slot.{flags, check_length, read}
use jet3_rs.Row.DataPage.{
  DataPageEditor, open_page, entry, live_row, live_rows_from, live_rows, packed, write_slot,
  write_free,
}
use jet3_rs.Row.Edit.{
  replace, replace_into, replace_writes, replace_word, retained, remove, remove_into, remove_writes,
  remove_word, write_slots,
}
use jet3_rs.Row.Insert.{state_or_ordinary}
use jet3_rs.Row.Edit.Replaced.{IsReplaced, replace-IsReplaced}
use jet3_rs.Row.Edit.Released.{IsReleased, remove-IsReleased}
use jet3_rs.Row.DataPage.Live.{rows_with_bytes}
use jet3_rs.Row.Edit.{released, release_writes}
use jet3_rs.Row.Edit.Rows.{row_of}
use jet3_rs.Row.Edit.Refined.{remove-row_of, replace-row_of}
use jet3_rs.Row.Edit.Removed.{IsRemoved, remove-IsRemoved}

abbrev two_rows : List ℕ
two_rows =
    1 ∷ 0 ∷ 0xeb ∷ 7 ∷ replicate 4 0
    ++ (2 ∷ 0 ∷ 0xfc ∷ 7 ∷ 0xf9 ∷ 7 ∷ replicate 2027 0 ++ (7 ∷ 8 ∷ 9 ∷ 1 ∷ 2 ∷ 3 ∷ 4 ∷ []))

-- The first row gone: the second has moved to the end of the page.
abbrev without_first : PageImage
without_first = record {
  bytes =
      1 ∷ 0 ∷ 0xef ∷ 7 ∷ replicate 4 0
      ++ (2 ∷ 0 ∷ 0x00 ∷ 0xc8 ∷ 0xfd ∷ 7 ∷ replicate 2027 0 ++ (7 ∷ 8 ∷ 9 ∷ 1 ∷ 7 ∷ 8 ∷ 9 ∷ []));
}

abbrev budget : ResourceBudget
budget = new_budget default_limits

abbrev paid : ResourceBudget
paid = spend (items 2) budget

abbrev spent : ResourceBudget
spent = spend (encoded 9) (spend (work 7) budget)

abbrev editor : DataPageEditor
editor = record {
  source = two_rows;
  directory = record { page = 5; inner = record { row_count = 2; next_row = 0 } };
}

two_rows_open : open_page 5 0 two_rows budget ≡ done editor paid
unfolding open_page validate validate_owner slice check_pointers next_entry Common_directory.entry
    Common_directory.validate validate_rows validate_entry charge_items
two_rows_open = refl

first_removed : remove editor 0 false budget ≡ done (retained without_first) spent
unfolding remove remove_into remove_writes remove_word write_slots write_slot write_free live_rows
    live_rows_from live_row packed entry Row_directory.entry Common_directory.entry read flags
    check_length write_at write_field seek write_exact charge_encoded_bytes charge_work_units slice
    copy_at
first_removed = refl

two_rows-AllBytes : AllBytes two_rows
two_rows-AllBytes =
    AllBytes-append (1 ∷ 0 ∷ 0xeb ∷ 7 ∷ replicate 4 0)
      (2 ∷ 0 ∷ 0xfc ∷ 7 ∷ 0xf9 ∷ 7 ∷ replicate 2027 0 ++ (7 ∷ 8 ∷ 9 ∷ 1 ∷ 2 ∷ 3 ∷ 4 ∷ []))
      (
        omega arith,
        (omega arith, (omega arith, (omega arith, replicate-AllBytes 4 0 (omega arith)))),
      )
      (AllBytes-append (2 ∷ 0 ∷ 0xfc ∷ 7 ∷ 0xf9 ∷ 7 ∷ replicate 2027 0)
        (7 ∷ 8 ∷ 9 ∷ 1 ∷ 2 ∷ 3 ∷ 4 ∷ [])
        (
          omega arith,
          (
            omega arith,
            (
              omega arith,
              (omega arith, (omega arith, (omega arith, replicate-AllBytes 2027 0 (omega arith)))),
            ),
          ),
        )
        (
          omega arith,
          (
            omega arith,
            (omega arith, (omega arith, (omega arith, (omega arith, (omega arith, tt))))),
          ),
        ))

limits_u64 : HasU64Limits default_limits
limits_u64 = record {
  allocation_u64 = omega arith;
  decoded_u64 = omega arith;
  encoded_u64 = omega arith;
  items_u64 = omega arith;
  visits_u64 = omega arith;
  work_u64 = omega arith;
}

remove-IsRemoved_example : IsRemoved two_rows without_first.bytes 0
remove-IsRemoved_example =
    remove-IsRemoved 5 0 two_rows 0 false budget paid budget spent editor without_first
      two_rows_open refl two_rows-AllBytes limits_u64 first_removed

-- The first row shorter by two bytes: the second has moved behind the gap.
abbrev with_shorter : PageImage
with_shorter = record {
  bytes =
      1 ∷ 0 ∷ 0xed ∷ 7 ∷ replicate 4 0
      ++ (2 ∷ 0 ∷ 0xfe ∷ 7 ∷ 0xfb ∷ 7 ∷ replicate 2027 0 ++ (7 ∷ 8 ∷ 7 ∷ 8 ∷ 9 ∷ 5 ∷ 6 ∷ []));
}

abbrev spent_on_shorter : ResourceBudget
spent_on_shorter = spend (encoded 11) (spend (work 7) budget)

first_replaced :
    replace editor 0 (5 ∷ 6 ∷ []) none budget ≡ done (some with_shorter) spent_on_shorter
unfolding replace replace_into replace_writes replace_word write_slots write_slot write_free
    live_rows live_rows_from live_row packed entry Row_directory.entry Common_directory.entry read
    flags check_length write_at write_field seek write_exact charge_encoded_bytes charge_work_units
    slice copy_at
first_replaced = refl

replace-IsReplaced_example :
    IsReplaced two_rows with_shorter.bytes 0 (5 ∷ 6 ∷ []) (state_or_ordinary none)
replace-IsReplaced_example =
    replace-IsReplaced 5 0 two_rows (5 ∷ 6 ∷ []) 0 none budget paid budget spent_on_shorter editor
      with_shorter two_rows_open refl two_rows-AllBytes limits_u64 first_replaced

-- The second row is the same after both changes.
remove-row_of_example : row_of without_first.bytes 1 ≡ row_of two_rows 1
remove-row_of_example =
    remove-row_of 5 0 two_rows 0 1 false budget paid budget spent editor without_first two_rows_open
      refl two_rows-AllBytes limits_u64 first_removed (omega arith)

replace-row_of_example : row_of with_shorter.bytes 1 ≡ row_of two_rows 1
replace-row_of_example =
    replace-row_of 5 0 two_rows (5 ∷ 6 ∷ []) 0 1 none budget paid budget spent_on_shorter editor
      with_shorter two_rows_open refl two_rows-AllBytes limits_u64 first_replaced (omega arith)

abbrev one_row : List ℕ
one_row =
    1 ∷ 0 ∷ 0xf0 ∷ 7 ∷ replicate 4 0
    ++ (1 ∷ 0 ∷ 0xfc ∷ 7 ∷ replicate 2032 0 ++ (1 ∷ 2 ∷ 3 ∷ 4 ∷ []))

abbrev no_rows : PageImage
no_rows = record {
  bytes =
      9 ∷ 0 ∷ 0xf4 ∷ 7 ∷ replicate 4 0
      ++ (1 ∷ 0 ∷ 0x00 ∷ 0xc8 ∷ replicate 2032 0 ++ (1 ∷ 2 ∷ 3 ∷ 4 ∷ []));
}

abbrev one_row_editor : DataPageEditor
one_row_editor = record {
  source = one_row;
  directory = record { page = 5; inner = record { row_count = 1; next_row = 0 } };
}

abbrev one_row_paid : ResourceBudget
one_row_paid = spend (items 1) budget

abbrev spent_on_release : ResourceBudget
spent_on_release = spend (encoded 5) (spend (work 2) budget)

one_row_opens : open_page 5 0 one_row budget ≡ done one_row_editor one_row_paid
unfolding open_page validate validate_owner slice check_pointers next_entry Common_directory.entry
    Common_directory.validate validate_rows validate_entry charge_items
one_row_opens = refl

only_row_removed : remove one_row_editor 0 false budget ≡ done (released no_rows) spent_on_release
unfolding remove remove_into release_writes write_slots write_slot write_free live_rows
    live_rows_from live_row packed entry Row_directory.entry Common_directory.entry write_at
    write_field seek write_exact charge_encoded_bytes charge_work_units copy_at
only_row_removed = refl

remove-IsReleased_example :
    (0 < declared_row_count one_row)
    × (rows_with_bytes one_row (declared_row_count one_row) 0 ≡ 1)
    × IsReleased one_row no_rows.bytes 0
remove-IsReleased_example =
    remove-IsReleased 5 0 one_row 0 false budget one_row_paid budget spent_on_release one_row_editor
      no_rows one_row_opens refl limits_u64 only_row_removed
