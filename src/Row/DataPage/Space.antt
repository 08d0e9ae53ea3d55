-- ===== src/Row/DataPage/Space.antt =====
-- The free bytes of a page are the gap between its directory and its lowest row.
use jet3_rs.Common.{ℕ, ◌+◌, ◌-◌, ◌%◌, ◌≤◌, ◌<◌, ◌≡◌, arith, List, String, ◌↔◌, ap}
use jet3_rs.Common.Bytes.{u16_at}
use jet3_rs.Common.Results.{ok, done}
use jet3_rs.Format.Geometry.{PageNumber}
use jet3_rs.Format.Resource.{ResourceBudget}
use jet3_rs.Format.DataPageDirectory.{
  DataPageDirectory, raw_offset, directory_end_of, free_space_offset, declared_row_count,
}
use jet3_rs.Format.DataPageDirectory as Common_directory
use jet3_rs.Format.DataPageDirectory.Shape.{start_of, IsEntry, masked_start}
use jet3_rs.Format.DataPageDirectory.Rows.{end_of-le_page}
use jet3_rs.Format.DataPageDirectory.Validation.{validate_iff}
use jet3_rs.Row.Directory as Row_directory
use jet3_rs.Row.Directory.Validation.{row_directory_iff}
use jet3_rs.Row.DataPage.{DataPageEditor, Packed, open_page, entry, packed}

open_page_parts :
    (number owner : PageNumber) (page : List ℕ) (b b' : ResourceBudget) (editor : DataPageEditor)
    → open_page number owner page b ≡ done editor b'
    → (editor.source ≡ page)
      × (Row_directory.validate number owner page b ≡ done editor.directory b')
unfolding open_page
open_page_parts number owner page b b' editor h = ground arith

-- What the directory of an opened page says of its rows.
pub open_page_rows :
    (number owner : PageNumber) (page : List ℕ) (b b' : ResourceBudget) (editor : DataPageEditor)
    → open_page number owner page b ≡ done editor b'
    → (editor.source ≡ page)
      × (editor.directory.inner.row_count ≡ declared_row_count page)
      × (declared_row_count page ≤ 256)
open_page_rows number owner page b b' editor h =
    let (source, valid) = open_page_parts number owner page b b' editor h in
    let (_, few, common, _, _) =
      (row_directory_iff number owner page b b' editor.directory).0 valid in
    let (_, _, _, shape) = (validate_iff page b b' editor.directory.inner).0 common in
    (source, ap (λ (x : DataPageDirectory). x.row_count) shape, few)

-- Every row of an opened page has a well-formed entry.
pub open_page_entries :
    (number owner : PageNumber) (page : List ℕ) (b b' : ResourceBudget) (editor : DataPageEditor)
    (row : ℕ)
    → open_page number owner page b ≡ done editor b'
    → row < declared_row_count page
    → IsEntry page (declared_row_count page) row
open_page_entries number owner page b b' editor row h inside =
    let (_, valid) = open_page_parts number owner page b b' editor h in
    let (_, _, common, _, _) =
      (row_directory_iff number owner page b b' editor.directory).0 valid in
    let (_, _, all, _) = (validate_iff page b b' editor.directory.inner).0 common in all row inside

-- The directory of an opened page ends below its lowest row.
lowest_row :
    (number owner : PageNumber) (page : List ℕ) (b b' : ResourceBudget) (editor : DataPageEditor)
    → open_page number owner page b ≡ done editor b'
    → (editor.directory.inner.row_count ≤ 256)
      × ((0 < editor.directory.inner.row_count)
          → directory_end_of editor.directory.inner.row_count
            ≤ start_of (raw_offset editor.source (editor.directory.inner.row_count - 1)))
lowest_row number owner page b b' editor h =
    let (source, count, few) = open_page_rows number owner page b b' editor h in
    let (_, valid) = open_page_parts number owner page b b' editor h in
    let (_, _, common, _, _) =
      (row_directory_iff number owner page b b' editor.directory).0 valid in
    let (_, _, all, _) = (validate_iff page b b' editor.directory.inner).0 common in
    rw source (
      rw count (
        few,
        λ some_row. (all (declared_row_count page - 1) (omega (arith, some_row))).after_directory,
      ))

-- All rows start inside the page.
pub row_in_page :
    (number owner : PageNumber) (page : List ℕ) (b b' : ResourceBudget) (editor : DataPageEditor)
    (row : ℕ)
    → open_page number owner page b ≡ done editor b'
    → row < declared_row_count page
    → start_of (raw_offset page row) ≤ 2048
row_in_page number owner page b b' editor row h inside =
    let (_, valid) = open_page_parts number owner page b b' editor h in
    let (_, _, common, _, _) =
      (row_directory_iff number owner page b b' editor.directory).0 valid in
    let (_, _, all, _) = (validate_iff page b b' editor.directory.inner).0 common in
    let here = all row inside in
    omega (arith, here.ordered, end_of-le_page page (declared_row_count page) row all inside)

-- `packed` on a directory with rows, where the gap is no difference that stops at 0.
packed_lowest :
    (editor : DataPageEditor) (message : String) (p : Packed)
    → 0 < editor.directory.inner.row_count
    → editor.directory.inner.row_count ≤ 256
    → directory_end_of editor.directory.inner.row_count
      ≤ start_of (raw_offset editor.source (editor.directory.inner.row_count - 1))
    → (packed editor message ≡ ok p) ↔ (
        (p.lowest ≡ start_of (raw_offset editor.source (editor.directory.inner.row_count - 1)))
        × (p.directory_end ≡ directory_end_of editor.directory.inner.row_count)
        × (p.free ≡ u16_at editor.source free_space_offset)
        × (p.directory_end + p.free ≡ p.lowest))
unfolding packed entry Row_directory.entry Common_directory.entry
packed_lowest editor message p some_row few above =
    let count = editor.directory.inner.row_count in
    let same : (count - 1) % 256 ≡ count - 1 = omega arith in
    let mask = masked_start (raw_offset editor.source (count - 1)) in
    rw same (λ h. ground (arith, mask), λ h. ground (arith, mask))

packed_empty :
    (editor : DataPageEditor) (message : String) (p : Packed)
    → packed editor message ≡ ok p
    → 0 < editor.directory.inner.row_count
unfolding packed
packed_empty editor message p found = ground arith

-- On an opened page, `packed` succeeds exactly when there is a row and the stored number of free
-- bytes is the size of the gap between the directory and the lowest row, and it returns the two ends
-- of the gap and its size.
pub packed_iff :
    (number owner : PageNumber) (page : List ℕ) (b b' : ResourceBudget) (editor : DataPageEditor)
    (message : String) (p : Packed)
    → open_page number owner page b ≡ done editor b'
    → let count = editor.directory.inner.row_count in
      (packed editor message ≡ ok p) ↔ (
        (0 < count)
        × (p.lowest ≡ start_of (raw_offset page (count - 1)))
        × (p.directory_end ≡ directory_end_of count)
        × (p.free ≡ u16_at page free_space_offset)
        × (p.directory_end + p.free ≡ p.lowest))
packed_iff number owner page b b' editor message p h =
    let (few, above) = lowest_row number owner page b b' editor h in
    rw (← (open_page_rows number owner page b b' editor h).0) (
      λ found.
          let some_row = packed_empty editor message p found in
          let (lowest, end, free, gap) =
            (packed_lowest editor message p some_row few (above some_row)).0 found in
          (some_row, lowest, end, free, gap),
      λ (some_row, lowest, end, free, gap).
          (packed_lowest editor message p some_row few (above some_row)).1 (lowest, end, free, gap),
    )
