-- ===== src/Format/PageImage.antt =====
-- crates/jet3/src/format/page_image.rs: complete page images and the data-page builder.
pub mod Writing
pub mod Contents
pub mod Admission
pub mod WriteAt
pub mod Start
pub mod Append
pub mod Decoding
use jet3_rs.Common.{
  ℕ, ◌+◌, ◌-◌, ◌*◌, ◌^◌, ltb, leb, ◌==◌, if◌then◌else◌, Bool, not, ◌&&◌, Option, none, some, List,
  [], ◌∷◌, length, replicate, bit_and, min,
}
use jet3_rs.Common.Bytes.{to_le_bytes}
use jet3_rs.Common.Results.{
  Result, ok, err, Outcome, done, fail, Op, ◌>>=◌, ◌>>◌, lift, return, throw, on_error, ok_or, get,
  put, refuse_if,
}
use jet3_rs.Format.Error.{Error, arithmetic}
use jet3_rs.Format.Geometry.{PageNumber, PageOffset}
use jet3_rs.Format.Offset.{ByteCount}
use jet3_rs.Format.Resource.{ResourceBudget}
use jet3_rs.Format.Writer.{BinaryWriter, new_writer, seek, write_exact, write_u16_le}
use jet3_rs.Format.PageKind.{PageKind, data_page, page_tag}
use jet3_rs.Format.DataPageDirectory.{
  page_bytes, owner_offset, row_count_offset, directory_offset, entry_len, offset_mask,
}

abbrev pub max_built_rows : ℕ
max_built_rows = 255

-- `LONG_VALUE_OWNER`: the ASCII bytes "LVAL".
abbrev pub long_value_owner : List ℕ
long_value_owner = 0x4c ∷ 0x56 ∷ 0x41 ∷ 0x4c ∷ []

pub record PageImage : Type 0 where
  pub bytes : List ℕ

-- `PageImage::new`: a zero page with the tag of its kind.
unfoldable pub new_image : PageKind → PageImage
unfolding page_tag
new_image kind = record { bytes = page_tag kind ∷ replicate 2047 0 }

-- An operation of a writer over the image's bytes, which keeps what the writer wrote.
abbrev pub on_image {ℓ} :
    {A : Type ℓ} → Op Error BinaryWriter A → Op Error (PageImage × ResourceBudget) A
on_image m (image, budget) = elim (m (new_writer image.bytes budget)) [
  | done a w ↦ done a (record { bytes = w.output }, w.budget)
  | fail e w ↦ fail e (record { bytes = w.output }, w.budget)
]

-- A `seek` and the write behind it; `write_u16_le` is `write_exact` of the two bytes.
unfoldable pub write_field : ℕ → List ℕ → Op Error BinaryWriter (Unit {0})
write_field offset bytes = do seek offset; write_exact bytes

unfoldable pub write_at : PageOffset → List ℕ → Op Error (PageImage × ResourceBudget) (Unit {0})
write_at offset bytes = on_image (write_field offset bytes)

pub data PageImageError : Type 0 where
  owner_not_representable : (owner : PageNumber) → PageImageError
  empty_row : PageImageError
  page_full : (needed available : ByteCount) → PageImageError
  row_slots_exhausted : (maximum : ℕ) → PageImageError
  encoding : Error → PageImageError

pub record DataPageBuilder : Type 0 where
  pub image : PageImage
  pub row_count : ℕ
  pub free_end : ℕ

-- A builder whose owner field holds the given bytes.
unfoldable pub owned_builder : List ℕ → Op PageImageError ResourceBudget DataPageBuilder
unfolding write_at new_image
owned_builder owner budget = elim (write_at owner_offset owner (new_image data_page, budget)) [
  | done _ s ↦ done (record { image = s.0; row_count = 0; free_end = page_bytes }) (s.1)
  | fail e s ↦ fail (encoding e) (s.1)
]

-- `DataPageBuilder::new` and `DataPageBuilder::new_long_value`.
unfoldable pub new_builder : PageNumber → Op PageImageError ResourceBudget DataPageBuilder
unfolding owned_builder
new_builder owner =
    if ltb owner (2 ^ 32)
    then owned_builder (to_le_bytes 4 owner)
    else throw (owner_not_representable owner)

unfoldable pub new_long_value : Op PageImageError ResourceBudget DataPageBuilder
unfolding owned_builder
new_long_value = owned_builder long_value_owner

-- `saturating_sub` is the subtraction of ℕ.
unfoldable pub free_bytes : DataPageBuilder → ByteCount
free_bytes b = b.free_end - (directory_offset + entry_len * b.row_count)

-- `u16::try_from(start)` with no bit above the offset mask.
unfoldable pub encode_offset : ℕ → Option ℕ
encode_offset start = if ltb start (2 ^ 16) && (bit_and start 0xe000 == 0) then some start else none

-- The writes of `append_row`: the row, its directory entry, and the row count last.
unfoldable pub row_writes : List ℕ → ℕ → ℕ → ℕ → ℕ → Op Error BinaryWriter (Unit {0})
row_writes row start entry_offset raw_offset row_count = do
  write_field start row
  write_field entry_offset (to_le_bytes 2 raw_offset)
  write_field row_count_offset (to_le_bytes 2 (row_count + 1))

-- An operation on the image that the builder owns; the rest of the builder stays.
abbrev on_builder {ℓ} :
    {A : Type ℓ}
    → Op Error (PageImage × ResourceBudget) A
    → Op PageImageError (DataPageBuilder × ResourceBudget) A
on_builder m (b, budget) = elim (m (b.image, budget)) [
  | done a s ↦ done a (record b { image = s.0 }, s.1)
  | fail e s ↦ fail (encoding e) (record b { image = s.0 }, s.1)
]

-- `u8::try_from(row_count)` cannot fail below the limit on rows, and its error is that limit's.
-- The sum of a length and 2 saturates at 2 ^ 64 - 1.
unfoldable pub append_row : List ℕ → Op PageImageError (DataPageBuilder × ResourceBudget) ℕ
unfolding free_bytes encode_offset
append_row row = do
  (b, budget) ← get
  refuse_if (length row == 0) empty_row
  refuse_if (leb max_built_rows b.row_count) (row_slots_exhausted max_built_rows)
  refuse_if (leb 256 b.row_count) (row_slots_exhausted max_built_rows)
  let needed = min (length row + entry_len) (2 ^ 64 - 1)
  refuse_if (ltb (free_bytes b) needed) (page_full needed (free_bytes b))
  let start = b.free_end - length row
  let entry_offset = directory_offset + entry_len * b.row_count
  raw_offset ←
      lift (ok_or (encode_offset start) (encoding (arithmetic "encode data-page row offset")))
  on_builder (on_image (row_writes row start entry_offset raw_offset b.row_count))
  (written, spent) ← get
  put (record written { row_count = b.row_count + 1; free_end = start }, spent)
  return b.row_count
