-- ===== src/Row/Directory.antt =====
-- crates/jet3/src/row/directory.rs: the directory of a data page of a given owner, whose rows have
-- eight-bit slots and whose visible overflow rows hold a four-byte pointer.
pub mod Pointers
pub mod Validation
pub mod Primary
use jet3_rs.Common.{
  ℕ, zero, suc, ◌+◌, ◌-◌, ◌%◌, ltb, leb, ◌==◌, if◌then◌else◌, Bool, not, ◌&&◌, ◌||◌, Option, none,
  some, List, slice,
}
use jet3_rs.Common.Bytes.{from_le_bytes}
use jet3_rs.Common.Results.{
  Result, ok, err, Op, ◌>>=◌, ◌>>◌, lift, return, refuse_if, on_error, throw,
}
use jet3_rs.Format.Error.{Error}
use jet3_rs.Format.Geometry.{PageNumber}
use jet3_rs.Format.Resource.{ResourceBudget}
use jet3_rs.Format.DataPageDirectory.{
  DataPageDirectory, DataPageDirectoryError, DataPageEntry, max_row_count, owner_offset,
  declared_row_count, next_entry,
}
use jet3_rs.Format.DataPageDirectory as Common_directory
use jet3_rs.Format.PageImage.{long_value_owner}

pub record RowLocator : Type 0 where
  pub page : PageNumber
  pub slot : ℕ

pub data RowDirectoryError : Type 0 where
  unexpected_owner : (expected actual : PageNumber) → RowDirectoryError
  row_count_too_large : (row_count maximum : ℕ) → RowDirectoryError
  row_slot_not_representable : (row_count : ℕ) → RowDirectoryError
  unknown_flag : (row raw_offset : ℕ) → RowDirectoryError
  offset_out_of_page : (row raw_offset : ℕ) → RowDirectoryError
  invalid_bounds : (row start end directory_end : ℕ) → RowDirectoryError
  invalid_overflow_pointer_length : (row length : ℕ) → RowDirectoryError
  missing_row : (row row_count : ℕ) → RowDirectoryError
  directory_changed :
      (page : PageNumber) (previous_row_count current_row_count : ℕ) → RowDirectoryError
  resource : Error → RowDirectoryError

pub record RowDirectory : Type 0 where
  pub page : PageNumber
  pub inner : DataPageDirectory

-- The range is `start..end`.
pub record RowEntry : Type 0 where
  pub locator : RowLocator
  pub start : ℕ
  pub end : ℕ
  pub overflow : Bool
  pub hidden : Bool

unfoldable pub validate_owner : PageNumber → List ℕ → Result RowDirectoryError (Unit {0})
validate_owner expected_owner page =
    let actual_owner = from_le_bytes (slice page owner_offset (owner_offset + 4)) in
    if actual_owner == expected_owner
    then ok tt
    else err (unexpected_owner expected_owner actual_owner)

-- `row as u8` keeps the low eight bits.
unfoldable pub map_directory_error : DataPageDirectoryError → RowDirectoryError
map_directory_error (DataPageDirectoryError.row_count_too_large count maximum) =
    row_count_too_large count maximum
map_directory_error (DataPageDirectoryError.has_unknown_flag row raw) = unknown_flag (row % 256) raw
map_directory_error (DataPageDirectoryError.offset_out_of_page row raw) =
    offset_out_of_page (row % 256) raw
map_directory_error (DataPageDirectoryError.invalid_bounds row start end directory_end) =
    invalid_bounds (row % 256) start end directory_end
map_directory_error (DataPageDirectoryError.resource e) = resource e

-- The loop of `validate`, at most `fuel` times round.
unfoldable pub check_pointers :
    ℕ → List ℕ → ℕ → DataPageDirectory → Result RowDirectoryError (Unit {0})
check_pointers zero page row_count d = ok tt
check_pointers (suc fuel) page row_count d =
    let (next, d') = next_entry page d in
    let rest = check_pointers fuel page row_count d' in
    elim next [
      | none ↦ ok tt
      | some e ↦
          if e.overflow && (not e.hidden && not (e.end - e.start == 4))
          then (if ltb e.row 256
              then err (invalid_overflow_pointer_length e.row (e.end - e.start))
              else err (row_slot_not_representable row_count))
          else rest
    ]

unfoldable pub validate :
    PageNumber → PageNumber → List ℕ → Op RowDirectoryError ResourceBudget RowDirectory
validate page_number expected_owner page = do
  lift (validate_owner expected_owner page)
  let row_count = declared_row_count page
  refuse_if (ltb max_row_count row_count) (row_count_too_large row_count max_row_count)
  refuse_if (ltb 256 row_count) (row_slot_not_representable row_count)
  inner ← λ budget. on_error map_directory_error (Common_directory.validate page budget)
  lift (check_pointers (suc inner.row_count) page row_count inner)
  return (record { page = page_number; inner = inner })

unfoldable pub validate_long_value :
    PageNumber → List ℕ → Op RowDirectoryError ResourceBudget RowDirectory
validate_long_value page_number page = validate page_number (from_le_bytes long_value_owner) page

-- `next_primary`, at most `fuel` times round: the directory goes on behind the entry.
unfoldable pub next_primary : ℕ → List ℕ → Op RowDirectoryError RowDirectory (Option RowEntry)
next_primary zero page d = return none d
next_primary (suc fuel) page d =
    let (next, inner) = next_entry page d.inner in
    let d' : RowDirectory = record d { inner = inner } in
    let rest = next_primary fuel page d' in
    elim next [
      | none ↦ return none d'
      | some e ↦
          if leb 256 e.row
          then throw (row_slot_not_representable d'.inner.row_count) d'
          else if e.hidden
          then rest
          else return
              (some (record {
                locator = record { page = d.page; slot = e.row };
                start = e.start;
                end = e.end;
                overflow = e.overflow;
                hidden = e.hidden;
              }))
              d'
    ]

unfoldable pub resume_after : RowDirectory → RowDirectory → Result RowDirectoryError RowDirectory
resume_after d previous =
    if not (d.page == previous.page) || not (d.inner.row_count == previous.inner.row_count)
    then err (directory_changed d.page previous.inner.row_count d.inner.row_count)
    else ok (record d { inner = Common_directory.resume_after d.inner previous.inner })

unfoldable pub entry : RowDirectory → List ℕ → ℕ → Result RowDirectoryError RowEntry
entry d page row = elim (Common_directory.entry d.inner page row) [
  | none ↦ err (missing_row row d.inner.row_count)
  | some e ↦ ok (record {
    locator = record { page = d.page; slot = row };
    start = e.start;
    end = e.end;
    overflow = e.overflow;
    hidden = e.hidden;
  })
]
