-- ===== src/Format/CommitState.antt =====
-- crates/jet3/src/format/commit_state.rs: the 256 two-byte commit slots of the first page.
-- `read_commit_region`, which reads a source, is not here.
pub mod Slots
use jet3_rs.Common.{
  ℕ, ◌+◌, ◌-◌, ◌*◌, ◌<◌, ltb, leb, ◌==◌, if◌then◌else◌, ◌&&◌, Option, none, some, List, [], ◌∷◌,
  slice,
}
use jet3_rs.Common.Bytes.{byte_at}

abbrev pub commit_region_offset : ℕ
commit_region_offset = 0x600

abbrev pub commit_region_length : ℕ
commit_region_length = 0x200

abbrev pub commit_slot_count : ℕ
commit_slot_count = 256

abbrev commit_slot_bytes : ℕ
commit_slot_bytes = 2

-- `[u8; 2]`.
abbrev pub Pair : Type 0
Pair = ℕ × ℕ

pub data CommitSlotRole : Type 0 where
  exclusive : CommitSlotRole
  shared : (ordinal : ℕ) → CommitSlotRole

pub data CommitStateClass : Type 0 where
  physically_writing corrupted_page_access : CommitStateClass
  other : Pair → CommitStateClass

-- `CommitStateClass::classify` and `CommitStateClass::raw`.
unfoldable pub classify : Pair → CommitStateClass
classify (a, b) =
    if a == 0x00 && b == 0x00
    then physically_writing
    else if a == 0x01 && b == 0x00
    then corrupted_page_access
    else other (a, b)

unfoldable pub class_raw : CommitStateClass → Pair
class_raw physically_writing = (0x00, 0x00)
class_raw corrupted_page_access = (0x01, 0x00)
class_raw (other raw) = raw

pub record CommitSlot : Type 0 where
  pub index : ℕ
  pub raw : Pair

unfoldable pub role : CommitSlot → CommitSlotRole
role s = if s.index == 0 then exclusive else shared (s.index - 1)

unfoldable pub classification : CommitSlot → CommitStateClass
classification s = classify s.raw

pub record CommitRegion : Type 0 where
  pub raw : List ℕ

-- `CommitRegion::slot`. The products and sums stay far below 2 ^ 64 for every index that the range
-- check lets through, so an overflow and the range check give the same `None`.
unfoldable pub slot : CommitRegion → ℕ → Option CommitSlot
slot region index =
    let byte_start = index * commit_slot_bytes in
    let byte_end = byte_start + commit_slot_bytes in
    if leb byte_end commit_region_length && ltb index 256
    then some (record {
      index = index;
      raw = (byte_at region.raw byte_start, byte_at region.raw (byte_start + 1));
    })
    else none

-- `CommitRegion::raw_slots`: `chunks_exact(2)`.
unfoldable pub chunk_pairs : List ℕ → List Pair
chunk_pairs [] = []
chunk_pairs (a ∷ []) = []
chunk_pairs (a ∷ b ∷ rest) = (a, b) ∷ chunk_pairs rest

unfoldable pub raw_slots : CommitRegion → List Pair
unfolding chunk_pairs
raw_slots region = chunk_pairs region.raw

unfoldable pub commit_region_from_database_header_page : List ℕ → CommitRegion
commit_region_from_database_header_page page = record {
  raw = slice page commit_region_offset (commit_region_offset + commit_region_length);
}
