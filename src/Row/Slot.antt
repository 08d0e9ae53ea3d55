-- ===== src/Row/Slot.antt =====
-- crates/jet3/src/row/directory.rs: the kinds of row slots, told by the flags and the length, and the
-- pointers that overflow rows hold (with their reader, from reader.rs).
pub mod Flags
pub mod Links
use jet3_rs.Common.{
  ℕ, suc, ◌+◌, ◌-◌, ◌^◌, ltb, ◌==◌, if◌then◌else◌, Bool, true, false, not, List, [], ◌∷◌, take,
  bit_or,
}
use jet3_rs.Common.Bytes.{byte_at, u16_at, to_le_bytes, from_le_bytes}
use jet3_rs.Common.Results.{Result, ok, err, and_then, Op, ◌>>=◌, ◌>>◌, get, refuse_if, on_error}
use jet3_rs.Format.Resource.{ResourceBudget}
use jet3_rs.Format.PageImage.{PageImage, write_at}
use jet3_rs.Row.Directory.{RowLocator, RowEntry}
use jet3_rs.Row.WriteError.{WriteError, resource, unsupported, mismatch}

pub data RowSlot : Type 0 where
  ordinary link storage storage_link deleted : RowSlot

unfoldable pub flags : RowSlot → ℕ
flags ordinary = 0
flags link = 0x4000
flags storage = 0x8000
flags storage_link = 0xc000
flags deleted = 0xc000

abbrev valid_length : RowSlot → ℕ → Bool
valid_length deleted length = length == 0
valid_length link length = length == 4
valid_length storage_link length = length == 4
valid_length ordinary length = not (length == 0)
valid_length storage length = not (length == 0)

unfoldable pub check_length : RowSlot → ℕ → Result WriteError (Unit {0})
check_length slot length =
    if valid_length slot length then ok tt else err (mismatch "physical row slot length")

-- The `match` of `read` on the flags and the length.
abbrev pub kind_of_slot : Bool → Bool → ℕ → RowSlot
kind_of_slot true true length = if length == 0 then deleted else storage_link
kind_of_slot true false length = storage
kind_of_slot false true length = link
kind_of_slot false false length = ordinary

unfoldable pub read : RowEntry → Result WriteError RowSlot
unfolding check_length
read entry =
    let length = entry.end - entry.start in
    let slot = kind_of_slot entry.hidden entry.overflow length in
    and_then (check_length slot length) λ _. ok slot

unfoldable pub overflow_pointer : RowLocator → Result WriteError (List ℕ)
overflow_pointer row =
    if ltb 0x00ff_ffff row.page
    then err (unsupported "overflow page reference width")
    else ok (row.slot ∷ take 3 (to_le_bytes 8 row.page))

-- reader.rs: `decode_pointer`, of four bytes.
unfoldable pub decode_pointer : List ℕ → RowLocator
decode_pointer raw = record {
  page = from_le_bytes (byte_at raw 1 ∷ byte_at raw 2 ∷ byte_at raw 3 ∷ 0 ∷ []);
  slot = byte_at raw 0;
}

-- The flags of a hidden row are set in the first entry of a new overflow page.
unfoldable pub hide_first : Op WriteError (PageImage × ResourceBudget) (Unit {0})
unfolding flags
hide_first = do
  (image, budget) ← get
  refuse_if (not (u16_at image.bytes 8 == 1)) (mismatch "new overflow page slot count")
  let word = bit_or (u16_at image.bytes 10) (flags storage)
  λ s. on_error resource (write_at 10 (to_le_bytes 2 word) s)
