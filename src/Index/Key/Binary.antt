-- ===== src/Index/Key/Binary.antt =====
-- crates/jet3/src/index/key/binary.rs: the framing of binary components in chunks of eight bytes, the
-- check of their prefixes, and the shortening of whole keys. An encoder returns the bytes of its
-- output up to the length that the source returns.
pub mod Blocks
pub mod Frame
pub mod Masked
pub mod LastBlock
pub mod Order
pub mod Loop
pub mod Prefix
use jet3_rs.Common.{
  ℕ, zero, suc, ◌+◌, ◌-◌, ◌*◌, ◌/◌, ◌%◌, ◌^◌, ltb, leb, ◌==◌, if◌then◌else◌, Bool, true, false, not,
  ◌||◌, ◌&&◌, Option, none, some, List, [], ◌∷◌, ◌++◌, map, length, take, drop, replicate, slice,
  min, bit_and, bit_xor,
}
use jet3_rs.Common.Bytes.{byte_at, to_le_bytes}
use jet3_rs.Index.Key.{IndexDirection, ascending, descending, KeyPrefix, complete, partial}

abbrev pub max_key_bytes : ℕ
max_key_bytes = 255

-- `u8::from(direction == Descending).wrapping_neg()`.
abbrev pub mask_of : IndexDirection → ℕ
mask_of ascending = 0
mask_of descending = 0xff

-- `value.chunks(8)`, in at most `rounds` chunks.
unfoldable pub chunks : ℕ → List ℕ → List (List ℕ)
chunks zero value = []
chunks (suc rounds) [] = []
chunks (suc rounds) (b ∷ bs) = take 8 (b ∷ bs) ∷ chunks rounds (drop 8 (b ∷ bs))

-- One chunk in the output, which `output.fill(mask)` has padded, and the byte behind it.
unfoldable pub frame_chunk : (mask total ordinal : ℕ) → List ℕ → List ℕ
frame_chunk mask total ordinal chunk =
    (map (λ b. bit_xor b mask) chunk ++ replicate (8 - length chunk) mask)
    ++ ((if ltb ((ordinal + 1) * 8) total then 9 else bit_xor (length chunk) mask) ∷ [])

unfoldable pub frame_chunks : (mask total ordinal : ℕ) → List (List ℕ) → List ℕ
frame_chunks mask total ordinal [] = []
frame_chunks mask total ordinal (chunk ∷ rest) =
    frame_chunk mask total ordinal chunk ++ frame_chunks mask total (ordinal + 1) rest

unfoldable pub encode : List ℕ → (maximum : ℕ) → IndexDirection → Option (List ℕ)
encode value maximum direction =
    let mask = mask_of direction in
    if ltb maximum (length value)
    then none
    else if length value == 0
    then some (mask ∷ [])
    else some (bit_xor 0x7f mask ∷ frame_chunks mask (length value) 0 (chunks (length value) value))

-- `iter().any(|byte| *byte != mask)`.
abbrev pub any_other : ℕ → List ℕ → Bool
any_other mask [] = false
any_other mask (b ∷ bs) = not (b == mask) || any_other mask bs

-- `maximum.div_ceil(8)` chunks of nine bytes behind the marker.
abbrev pub framed_maximum : ℕ → ℕ
framed_maximum maximum = 1 + 9 * ((maximum + 7) / 8)

-- The checks of the loop behind a chunk of nine bytes that is the last one.
unfoldable pub last_chunk : (mask available offset : ℕ) → List ℕ → Option KeyPrefix
last_chunk mask available offset chunk =
    let value_length = bit_xor (byte_at chunk 8) mask in
    if not (leb 1 value_length && leb value_length available)
      || any_other mask (slice chunk value_length 8)
    then none
    else some (complete (offset + 9))

-- A chunk that the end of the key cuts.
unfoldable pub cut_chunk : (mask available maximum : ℕ) → List ℕ → Option KeyPrefix
cut_chunk mask available maximum chunk =
    if any_other mask (drop available chunk) then none else some (partial (framed_maximum maximum))

-- The loop. A round that goes on has consumed eight bytes of the value, and the loop gives `none` once
-- it has consumed `maximum`, so that as many rounds are enough.
unfoldable pub prefix_from :
    (rounds : ℕ) → List ℕ → (maximum mask offset consumed : ℕ) → Option KeyPrefix
prefix_from zero key maximum mask offset consumed = none
prefix_from (suc rounds) key maximum mask offset consumed =
    let next = prefix_from rounds key maximum mask (offset + 9) (consumed + 8) in
    let available = min (maximum - consumed) 8 in
    let chunk = take 9 (drop offset key) in
    if ltb maximum consumed
    then none
    else if available == 0
    then none
    else if ltb (length key) offset
    then none
    else if ltb (length chunk) 9
    then cut_chunk mask available maximum chunk
    else if byte_at chunk 8 == 9
    then next
    else last_chunk mask available offset chunk

unfoldable pub prefix : List ℕ → (maximum : ℕ) → IndexDirection → Option KeyPrefix
prefix key maximum direction = prefix_from maximum key maximum (mask_of direction) 1 0

-- One step of the checksum on 16 bits.
unfoldable pub checksum_step : ℕ → ℕ
checksum_step checksum =
    bit_xor (checksum * 2 % 65536) (if bit_and checksum 0x8000 == 0 then 0 else 0x8005)

abbrev checksum_steps : ℕ → ℕ → ℕ
checksum_steps zero checksum = checksum
checksum_steps (suc n) checksum = checksum_steps n (checksum_step checksum)

unfoldable pub checksum_of : ℕ → List ℕ → ℕ
unfolding checksum_step
checksum_of checksum [] = checksum
checksum_of checksum (b ∷ bs) = checksum_of (bit_xor (checksum_steps 8 checksum) b) bs

unfoldable pub shorten : List ℕ → List ℕ
unfolding checksum_of
shorten key =
    if leb (length key) max_key_bytes
    then key
    else take 253 key ++ to_le_bytes 2 (checksum_of 0 (drop 253 key))
