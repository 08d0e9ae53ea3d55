-- ===== src/Alloc/Encoder.antt =====
-- crates/jet3/src/alloc/usage_map_writer.rs: the encoders of the maps' records and bitmap pages.
pub mod Bits
pub mod Records
pub mod References
pub mod Allocated
use jet3_rs.Common.{
  ℕ, zero, suc, ◌+◌, ◌-◌, ◌*◌, ◌/◌, ◌%◌, ◌^◌, ltb, leb, ◌==◌, if◌then◌else◌, Bool, true, false, not,
  ◌&&◌, Option, none, some, List, [], ◌∷◌, length, replicate, get_or, copy_at, bit_and, bit_or,
  bit_xor, min,
}
use jet3_rs.Common.Bytes.{to_le_bytes}
use jet3_rs.Common.Results.{
  Result, ok, err, Outcome, done, fail, Op, ◌>>=◌, ◌>>◌, lift, return, throw, on_error, continue,
  ok_or, and_then, map_err,
}
use jet3_rs.Format.Error.{Error, arithmetic, io, IoErrorKind}
use jet3_rs.Format.Offset.{ByteCount, checked_add, checked_sub}
use jet3_rs.Format.Geometry.{PageNumber}
use jet3_rs.Format.Resource.{ResourceBudget, charge_allocation}
use jet3_rs.Format.Writer.{BinaryWriter, new_writer, write_exact, write_u8, write_u32_le}
use jet3_rs.Format.PageKind.{extended_usage_bitmap}
use jet3_rs.Format.PageImage.{PageImage, new_image, write_at}
use jet3_rs.Alloc.Map.{inline_header_len, extended_bitmap_offset, extended_bitmap_bits}

pub data UsageMapWriteError : Type 0 where
  page_out_of_map : (page first : PageNumber) (page_count : ℕ) → UsageMapWriteError
  page_not_representable : (page : PageNumber) → UsageMapWriteError
  encoding : Error → UsageMapWriteError

-- The page relative to the first one, where the map represents it.
unfoldable pub relative_page : ℕ → ℕ → ℕ → Option ℕ
relative_page page first page_count = elim (checked_sub page first) [
  | none ↦ none
  | some relative ↦ if ltb relative page_count then some relative else none
]

-- The byte and the mask of a page's bit.
unfoldable pub bit_location : ℕ → ℕ → ℕ → Result UsageMapWriteError (ℕ × ℕ)
unfolding relative_page
bit_location page first page_count =
    and_then (ok_or (relative_page page first page_count) (page_out_of_map page first page_count))
      λ relative. ok (relative / 8, 2 ^ (relative % 8))

-- `*target |= mask` or `*target &= !mask` on one byte.
unfoldable pub write_bit : ℕ → ℕ → Bool → ℕ
write_bit target mask set = if set then bit_or target mask else bit_and target (bit_xor mask 0xff)

pub record InlineUsageMapEncoder : Type 0 where
  pub start_page : ℕ
  pub bitmap : List ℕ

-- `InlineUsageMapEncoder::new`; `reserves` is the allocator's answer to `try_reserve_exact`.
unfoldable pub new_inline :
    (ByteCount → Bool)
    → PageNumber
    → ByteCount
    → Op UsageMapWriteError ResourceBudget InlineUsageMapEncoder
new_inline reserves start_page bitmap_len =
    if ltb start_page (2 ^ 32)
    then (do
      λ budget. on_error encoding (charge_allocation bitmap_len budget)
      if reserves bitmap_len
          then return (record { start_page = start_page; bitmap = replicate bitmap_len 0 })
          else throw (encoding (io "reserve inline usage-map bitmap" IoErrorKind.out_of_memory)))
    else throw (page_not_representable start_page)

-- `saturating_mul`, `saturating_add` of `u64` values.
unfoldable pub page_count : InlineUsageMapEncoder → ℕ
page_count e = min (length e.bitmap * 8) (2 ^ 64 - 1)

unfoldable pub encoded_len : InlineUsageMapEncoder → ByteCount
encoded_len e = min (inline_header_len + length e.bitmap) (2 ^ 64 - 1)

-- `locate` and `update`, and `set_page` and `clear_page` with `true` and `false`.
unfoldable pub update_inline :
    PageNumber → Bool → Op UsageMapWriteError InlineUsageMapEncoder (Unit {0})
unfolding bit_location page_count write_bit
update_inline page set e = elim (bit_location page e.start_page (page_count e)) [
  | err x ↦ fail x e
  | ok at ↦
      if ltb at.0 (length e.bitmap)
      then done tt (record e {
        bitmap = copy_at e.bitmap at.0 (write_bit (get_or e.bitmap at.0 0) at.1 set ∷ []);
      })
      else fail (encoding (arithmetic "locate inline usage-map bitmap byte")) e
]

abbrev pub set_page : PageNumber → Op UsageMapWriteError InlineUsageMapEncoder (Unit {0})
set_page page = update_inline page true

abbrev pub clear_page : PageNumber → Op UsageMapWriteError InlineUsageMapEncoder (Unit {0})
clear_page page = update_inline page false

-- An operation of a writer over an output slice, which keeps what the writer wrote.
abbrev pub on_output {ℓ κ} :
    {E : Type ℓ} {A : Type κ} → Op E BinaryWriter A → Op E (List ℕ × ResourceBudget) A
on_output m (output, budget) = elim (m (new_writer output budget)) [
  | done a w ↦ done a (w.output, w.budget)
  | fail e w ↦ fail e (w.output, w.budget)
]

-- The writes of the inline record.
unfoldable pub inline_writes : InlineUsageMapEncoder → Op Error BinaryWriter (Unit {0})
inline_writes e = write_u8 0x00 >> (write_u32_le e.start_page >> write_exact e.bitmap)

unfoldable pub encode_inline :
    InlineUsageMapEncoder → Op UsageMapWriteError (List ℕ × ResourceBudget) ByteCount
unfolding inline_writes encoded_len
encode_inline e = (λ s. on_error encoding (on_output (inline_writes e) s)) >> return (encoded_len e)

-- `indirect_record_len`: `checked_mul`, then `checked_add`.
unfoldable pub indirect_record_len : ℕ → Result Error ByteCount
indirect_record_len reference_count =
    if ltb (reference_count * 4) (2 ^ 64)
    then ok_or (checked_add (reference_count * 4) 1) (arithmetic "indirect usage-map record length")
    else err (arithmetic "indirect usage-map record length")

-- The loop over the references.
unfoldable pub write_references : List PageNumber → Op UsageMapWriteError BinaryWriter (Unit {0})
write_references [] = return tt
write_references (page ∷ pages) =
    if ltb page (2 ^ 32)
    then (λ w. on_error encoding (write_u32_le page w)) >> write_references pages
    else throw (page_not_representable page)

unfoldable pub indirect_writes : List PageNumber → Op UsageMapWriteError BinaryWriter (Unit {0})
unfolding write_references
indirect_writes pages = (λ w. on_error encoding (write_u8 0x01 w)) >> write_references pages

unfoldable pub encode_indirect_references :
    List PageNumber → Op UsageMapWriteError (List ℕ × ResourceBudget) ByteCount
unfolding indirect_writes indirect_record_len
encode_indirect_references pages = do
  on_output (indirect_writes pages)
  lift (map_err encoding (indirect_record_len (length pages)))

pub record ExtendedUsageMapEncoder : Type 0 where
  pub first : PageNumber
  pub image : PageImage

abbrev pub extended_header : List ℕ
extended_header = 0x05 ∷ 0x01 ∷ 0x00 ∷ 0x00 ∷ []

-- `ExtendedUsageMapEncoder::new`.
unfoldable pub new_extended : ℕ → Op UsageMapWriteError ResourceBudget ExtendedUsageMapEncoder
unfolding new_image write_at
new_extended slot budget =
    if ltb (slot * extended_bitmap_bits) (2 ^ 64)
    then elim (write_at 0 extended_header (new_image extended_usage_bitmap, budget)) [
      | done _ s ↦ done (record { first = slot * extended_bitmap_bits; image = s.0 }) s.1
      | fail x s ↦ fail (encoding x) s.1
    ]
    else fail (encoding (arithmetic "extended usage-map slot to first page multiplication")) budget

-- `locate` and `update` of a page's bit.
unfoldable pub update_extended :
    PageNumber → Bool → Op UsageMapWriteError (ExtendedUsageMapEncoder × ResourceBudget) (Unit {0})
unfolding bit_location write_bit write_at
update_extended page set (e, budget) = elim (bit_location page e.first extended_bitmap_bits) [
  | err x ↦ fail x (e, budget)
  | ok at ↦
      let index = at.0 + extended_bitmap_offset in
      if ltb index (length e.image.bytes)
      then elim (write_at index (write_bit (get_or e.image.bytes index 0) at.1 set ∷ [])
          (e.image, budget)) [
            | done _ s ↦ done tt (record e { image = s.0 }, s.1)
            | fail x s ↦ fail (encoding x) (record e { image = s.0 }, s.1)
          ]
      else fail (encoding (arithmetic "locate extended usage-map bitmap byte")) (e, budget)
]
