-- ===== src/Format/CommitState/Slots.antt =====
-- What the commit region's views keep of its bytes.
use jet3_rs.Common.{
  ℕ, zero, suc, ◌/◌, ◌+◌, ◌*◌, ◌<◌, ◌≡◌, refl, ◌↔◌, arith, some, List, [], ◌∷◌, length, get_or,
  slice, get_or-slice, sym, ◌∙◌,
}
use jet3_rs.Common.Bytes.{byte_at}
use jet3_rs.Format.CommitState.{
  Pair, classify, classification, class_raw, CommitSlot, CommitRegion, slot, chunk_pairs, raw_slots,
  commit_region_from_database_header_page,
}

-- Classifying a pair loses nothing of it.
pub class_raw-classify : (p : Pair) → class_raw (classify p) ≡ p
unfolding classify class_raw
class_raw-classify (a, b) = ground arith

-- A slot is there exactly below 256; it then holds its index and the two bytes of the database
-- header page at 0x600 + 2 * index.
pub slot-commit_region_iff :
    (page : List ℕ) (index : ℕ) (s : CommitSlot)
    → (slot (commit_region_from_database_header_page page) index ≡ some s) ↔ (
        (index < 256)
        × (s.index ≡ index)
        × (s.raw ≡ (byte_at page (0x600 + 2 * index), byte_at page (0x601 + 2 * index))))
unfolding slot commit_region_from_database_header_page
slot-commit_region_iff page index s = (
  λ h. ground (arith, low (index * 2), low (index * 2 + 1)),
  λ h. ground (arith, low (index * 2), low (index * 2 + 1)),
)
  where
    low : (i : ℕ) → i < 0x200 → byte_at (slice page 0x600 0x800) i ≡ byte_at page (0x600 + i)
    low i h = get_or-slice page 0x600 0x800 i 0 (omega arith)

length-chunk_pairs : (xs : List ℕ) → length (chunk_pairs xs) ≡ length xs / 2
unfolding chunk_pairs
length-chunk_pairs [] = omega arith
length-chunk_pairs (a ∷ []) = omega arith
length-chunk_pairs (a ∷ b ∷ rest) = omega (arith, length-chunk_pairs rest)

get_or-chunk_pairs :
    (xs : List ℕ) (i : ℕ) (d : Pair)
    → i * 2 + 1 < length xs
    → get_or (chunk_pairs xs) i d ≡ (byte_at xs (i * 2), byte_at xs (i * 2 + 1))
unfolding chunk_pairs
get_or-chunk_pairs [] i d h = absurd (omega arith)
get_or-chunk_pairs (a ∷ []) i d h = absurd (omega arith)
get_or-chunk_pairs (a ∷ b ∷ rest) zero d h = refl
get_or-chunk_pairs (a ∷ b ∷ rest) (suc i) d h =
    let e : suc i * 2 ≡ suc (suc (i * 2)) = omega arith in
    let e' : suc (suc (i * 2)) + 1 ≡ suc (suc (i * 2 + 1)) = omega arith in
    rw (e, e') (get_or-chunk_pairs rest i d (omega arith))

slot_inside :
    (region : CommitRegion) (index : ℕ) (s : CommitSlot)
    → slot region index ≡ some s
    → (index < 256) × (s.raw ≡ (byte_at region.raw (index * 2), byte_at region.raw (index * 2 + 1)))
unfolding slot
slot_inside region index s h = ground arith

-- Over a region of 512 bytes the iterator has 256 pairs, the pair of each slot in its place, and
-- the slot's class stands for this pair.
pub raw_slots-slot :
    (region : CommitRegion) (index : ℕ) (s : CommitSlot) (d : Pair)
    → length region.raw ≡ 512
    → slot region index ≡ some s
    → (length (raw_slots region) ≡ 256)
      × (get_or (raw_slots region) index d ≡ s.raw)
      × (class_raw (classification s) ≡ get_or (raw_slots region) index d)
unfolding raw_slots classification
raw_slots-slot region index s d len h =
    let (below, pair) = slot_inside region index s h in
    let there : get_or (chunk_pairs region.raw) index d ≡ s.raw =
      get_or-chunk_pairs region.raw index d (omega arith) ∙ sym pair in
    (omega (arith, length-chunk_pairs region.raw), there, class_raw-classify s.raw ∙ sym there)
