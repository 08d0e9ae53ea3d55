-- ===== src/Format/DataPageDirectory.antt =====
-- crates/jet3/src/format/data_page_directory.rs: the row directory of a data page. A page is a list
-- of PAGE_BYTES bytes; entry `row` is the 16-bit word at 10 + 2 * row, its low 13 bits the row's
-- start and its high bits flags. Rows are packed downwards from the end of the page.
pub mod Shape
pub mod Validation
pub mod Rows
pub mod Iteration
use jet3_rs.Common.{
  ℕ, zero, suc, ◌+◌, ◌-◌, ◌*◌, ltb, leb, ◌==◌, if◌then◌else◌, Bool, not, ◌&&◌, ◌||◌, Option, none,
  some, List, bit_and,
}
use jet3_rs.Common.Bytes.{u16_at, byte_at}
use jet3_rs.Common.Results.{
  Result, ok, err, Op, ◌>>=◌, ◌>>◌, lift, return, throw, on_error, and_then,
}
use jet3_rs.Format.Error.{Error}
use jet3_rs.Format.Resource.{ResourceBudget, charge_items}

abbrev pub page_bytes : ℕ
page_bytes = 2048

abbrev pub free_space_offset : ℕ
free_space_offset = 2

abbrev pub owner_offset : ℕ
owner_offset = 4

abbrev pub row_count_offset : ℕ
row_count_offset = 8

abbrev pub directory_offset : ℕ
directory_offset = 10

abbrev pub entry_len : ℕ
entry_len = 2

abbrev pub offset_mask : ℕ
offset_mask = 0x1fff

abbrev unknown_flag : ℕ
unknown_flag = 0x2000

abbrev overflow_flag : ℕ
overflow_flag = 0x4000

abbrev hidden_flag : ℕ
hidden_flag = 0x8000

abbrev pub max_row_count : ℕ
max_row_count = 1019

pub data DataPageDirectoryError : Type 0 where
  row_count_too_large : (row_count maximum : ℕ) → DataPageDirectoryError
  has_unknown_flag : (row raw_offset : ℕ) → DataPageDirectoryError
  offset_out_of_page : (row raw_offset : ℕ) → DataPageDirectoryError
  invalid_bounds : (row start end directory_end : ℕ) → DataPageDirectoryError
  resource : Error → DataPageDirectoryError

pub record DataPageDirectory : Type 0 where
  pub row_count : ℕ
  pub next_row : ℕ

-- The range is `start..end`.
pub record DataPageEntry : Type 0 where
  pub row : ℕ
  pub start : ℕ
  pub end : ℕ
  pub overflow : Bool
  pub hidden : Bool

abbrev pub declared_row_count : List ℕ → ℕ
declared_row_count page = u16_at page row_count_offset

abbrev pub raw_offset : List ℕ → ℕ → ℕ
raw_offset page row = u16_at page (directory_offset + entry_len * row)

abbrev pub directory_end_of : ℕ → ℕ
directory_end_of row_count = directory_offset + entry_len * row_count

-- `raw & flag != 0`.
abbrev pub has_flag : ℕ → ℕ → Bool
has_flag raw flag = not (bit_and raw flag == 0)

unfoldable pub validate_entry : ℕ → ℕ → ℕ → ℕ → Result DataPageDirectoryError ℕ
validate_entry row raw end directory_end =
    if has_flag raw unknown_flag
    then err (has_unknown_flag row raw)
    else let start = bit_and raw offset_mask in
      let hidden = has_flag raw hidden_flag in
      if ltb page_bytes start || (start == page_bytes && not hidden)
      then err (offset_out_of_page row raw)
      else if ltb start directory_end || ltb end start || (not hidden && start == end)
      then err (invalid_bounds row start end directory_end)
      else ok start

-- The loop of `validate` with `left` rows to go, `end` the start of the row before.
unfoldable pub validate_rows : List ℕ → ℕ → ℕ → ℕ → ℕ → Result DataPageDirectoryError ℕ
validate_rows page zero row end directory_end = ok end
validate_rows page (suc left) row end directory_end =
    and_then (validate_entry row (raw_offset page row) end directory_end)
      λ start. validate_rows page left (suc row) start directory_end

unfoldable pub validate : List ℕ → Op DataPageDirectoryError ResourceBudget DataPageDirectory
validate page =
    let row_count = declared_row_count page in
    if ltb max_row_count row_count then throw (row_count_too_large row_count max_row_count) else (do
      λ budget. on_error resource (charge_items row_count budget)
      _ ← lift (validate_rows page row_count 0 page_bytes (directory_end_of row_count))
      return (record { row_count = row_count; next_row = 0 }))

-- The end of a row: the page's end for the first, the start of the row before for the others.
abbrev pub entry_end : List ℕ → ℕ → ℕ
entry_end page zero = page_bytes
entry_end page (suc before) = bit_and (raw_offset page before) offset_mask

unfoldable pub entry : DataPageDirectory → List ℕ → ℕ → Option DataPageEntry
entry directory page row =
    if leb directory.row_count row
    then none
    else let raw = raw_offset page row in
      some (record {
        row = row;
        start = bit_and raw offset_mask;
        end = entry_end page row;
        overflow = has_flag raw overflow_flag;
        hidden = has_flag raw hidden_flag;
      })

unfoldable pub next_entry : List ℕ → DataPageDirectory → Option DataPageEntry × DataPageDirectory
unfolding entry
next_entry page directory =
    if leb directory.row_count directory.next_row
    then (none, directory)
    else let advanced : DataPageDirectory = record directory {
      next_row = suc directory.next_row;
    } in
      (entry advanced page directory.next_row, advanced)

unfoldable pub resume_after : DataPageDirectory → DataPageDirectory → DataPageDirectory
resume_after directory previous = record directory { next_row = previous.next_row }
