-- ===== src/Alloc/UsageMap.antt =====
-- crates/jet3/src/alloc/usage_map.rs: the rows of data pages that hold allocation maps. A deleted row
-- of such a page is empty, and the rows in use carry no flag.
pub mod Located
use jet3_rs.Common.{
  ℕ, zero, suc, ◌+◌, ◌*◌, ltb, leb, ◌==◌, if◌then◌else◌, Bool, true, false, not, ◌&&◌, ◌||◌, Option,
  none, some, List, slice, bit_and,
}
use jet3_rs.Common.Results.{
  Result, ok, err, Op, ◌>>=◌, ◌>>◌, lift, return, throw, on_error, and_then, ok_or, refuse_if,
}
use jet3_rs.Format.Error.{Error}
use jet3_rs.Format.Geometry.{PageNumber}
use jet3_rs.Format.PageKind.{PageKind, ClassifiedPage, data_page}
use jet3_rs.Format.Resource.{ResourceBudget, charge_items, charge_work_units}
use jet3_rs.Format.DataPageDirectory.{
  page_bytes, max_row_count, offset_mask, declared_row_count, raw_offset, directory_end_of,
}
use jet3_rs.Alloc.Map.{Range}

abbrev pub max_unflagged_row_offset : ℕ
max_unflagged_row_offset = 2047

abbrev pub deleted_map_flags : ℕ
deleted_map_flags = 0xc000

-- `MapRowLocator` of crates/jet3/src/definition/map_location.rs.
pub record MapRowLocator : Type 0 where
  pub page : PageNumber
  pub row : ℕ

pub record UsageMapRecord : Type 0 where
  pub location : MapRowLocator
  pub raw : List ℕ
  pub start : ℕ
  pub end : ℕ

pub data UsageMapError : Type 0 where
  page_mismatch : (expected actual : PageNumber) → UsageMapError
  expected_data_page : (page : PageNumber) (actual : PageKind) → UsageMapError
  row_count_too_large : (row_count maximum : ℕ) → UsageMapError
  row_out_of_bounds : (row row_count : ℕ) → UsageMapError
  flagged_or_out_of_page_row : (row raw_offset : ℕ) → UsageMapError
  invalid_row_bounds : (row start end directory_end : ℕ) → UsageMapError
  resource : Error → UsageMapError

-- `raw_offset & !OFFSET_MASK == DELETED_MAP_FLAGS` of a `u16`.
abbrev pub is_deleted_map : ℕ → Bool
is_deleted_map raw = bit_and raw 0xe000 == deleted_map_flags

-- `(start == end) != deleted`.
abbrev differs : Bool → Bool → Bool
differs true b = not b
differs false b = b

-- The checks of one row, whose start they give.
unfoldable pub check_row : ℕ → ℕ → ℕ → ℕ → ℕ → Result UsageMapError ℕ
check_row requested row raw end directory_end =
    let deleted = is_deleted_map raw in
    let start = bit_and raw offset_mask in
    if ltb max_unflagged_row_offset raw
      && (not deleted || (row == requested || ltb page_bytes start))
    then err (flagged_or_out_of_page_row row raw)
    else if ltb start directory_end || (ltb end start || differs (start == end) deleted)
    then err (invalid_row_bounds row start end directory_end)
    else ok start

-- The loop over the rows with `left` to go, `end` the start of the row before.
unfoldable pub select_row :
    List ℕ → ℕ → ℕ → ℕ → ℕ → ℕ → Option Range → Result UsageMapError (Option Range)
unfolding check_row
select_row page requested directory_end zero row end selected = ok selected
select_row page requested directory_end (suc left) row end selected =
    and_then (check_row requested row (raw_offset page row) end directory_end) λ start.
      select_row page requested directory_end left (suc row) start
        (if row == requested then some (record { start = start; end = end }) else selected)

-- `page.kind() != PageKind::Data`.
abbrev is_data : PageKind → Bool
is_data data_page = true
is_data _ = false

unfoldable pub locate_usage_map :
    ClassifiedPage → MapRowLocator → Op UsageMapError ResourceBudget UsageMapRecord
unfolding select_row
locate_usage_map page locator = do
  λ budget. on_error resource (charge_work_units 1 budget)
  refuse_if (not (page.number == locator.page)) (page_mismatch locator.page page.number)
  refuse_if (not (is_data page.kind)) (expected_data_page page.number page.kind)
  let row_count = declared_row_count page.raw
  refuse_if (ltb max_row_count row_count) (row_count_too_large row_count max_row_count)
  refuse_if (leb row_count locator.row) (row_out_of_bounds locator.row row_count)
  λ budget. on_error resource (charge_items row_count budget)
  selected ←
      lift
        (select_row page.raw locator.row (directory_end_of row_count) row_count 0 page_bytes none)
  range ← lift (ok_or selected (row_out_of_bounds locator.row row_count))
  return (record {
    location = locator;
    raw = slice page.raw range.start range.end;
    start = range.start;
    end = range.end;
  })
