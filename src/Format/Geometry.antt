-- ===== src/Format/Geometry.antt =====
-- crates/jet3/src/format/page.rs: fixed-size page geometry over a captured length.
pub mod Ranges
use jet3_rs.Common.{
  ℕ, ◌+◌, ◌-◌, ◌*◌, ◌/◌, ◌%◌, ◌^◌, ltb, leb, ◌==◌, if◌then◌else◌, Bool, not, Option, none, some,
}
use jet3_rs.Common.Results.{Result, ok, err, and_then, ok_or}
use jet3_rs.Format.Error.{
  Error, arithmetic, invalid_page_size, partial_page, page_out_of_bounds, page_offset_out_of_bounds,
  unexpected_end,
}
use jet3_rs.Format.Offset.{ByteOffset, ByteCount, checked_add, offset_add}

abbrev pub PageNumber : Type 0
PageNumber = ℕ

abbrev pub PageOffset : Type 0
PageOffset = ℕ

pub record PageGeometry : Type 0 where
  pub source_len : ByteCount
  pub page_size : ByteCount
  pub page_count : ℕ

-- `PageGeometry::new`.
unfoldable pub new_geometry : ByteCount → ByteCount → Result Error PageGeometry
new_geometry source_len page_size =
    if page_size == 0
    then err (invalid_page_size page_size)
    else let trailing = source_len % page_size in
      if not (trailing == 0)
      then err (partial_page source_len page_size trailing)
      else ok (record {
        source_len = source_len;
        page_size = page_size;
        page_count = source_len / page_size;
      })

unfoldable pub contains : PageGeometry → PageNumber → Bool
contains g page = ltb page g.page_count

unfoldable pub validate_reference : PageGeometry → PageNumber → Result Error (Unit {0})
unfolding contains
validate_reference g page =
    if contains g page then ok tt else err (page_out_of_bounds page g.page_count)

-- `u64::checked_mul`.
abbrev checked_mul : ℕ → ℕ → Option ℕ
checked_mul a b = if ltb (a * b) (2 ^ 64) then some (a * b) else none

checked_page_start : PageNumber → ByteCount → Result Error ByteOffset
checked_page_start page page_size =
    ok_or (checked_mul page page_size) (arithmetic "page-number to byte-offset multiplication")

checked_absolute_offset : ByteOffset → PageOffset → Result Error ByteOffset
checked_absolute_offset page_start page_offset =
    ok_or (checked_add page_start page_offset) (arithmetic "page-local to absolute offset addition")

unfoldable pub page_byte_range : PageGeometry → PageNumber → Result Error (ByteOffset × ByteCount)
unfolding validate_reference checked_page_start offset_add
page_byte_range g page = and_then (validate_reference g page) λ _.
    and_then (checked_page_start page g.page_size) λ start.
      and_then (offset_add start g.page_size) λ end.
        if ltb g.source_len end
        then err (unexpected_end start g.page_size (g.source_len - start))
        else ok (start, g.page_size)

unfoldable pub byte_offset : PageGeometry → PageNumber → PageOffset → Result Error ByteOffset
unfolding page_byte_range checked_absolute_offset
byte_offset g page offset = and_then (page_byte_range g page) λ range.
    if leb g.page_size offset
    then err (page_offset_out_of_bounds offset g.page_size)
    else checked_absolute_offset (range.0) offset
