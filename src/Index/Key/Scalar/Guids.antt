-- ===== src/Index/Key/Scalar/Guids.antt =====
-- The bytes of the component of a GUID that the check of prefixes looks at: those behind its two blocks.
use jet3_rs.Common.{
  ℕ, ◌≡◌, sym, ap, ◌∙◌, arith, ltb, true, false, List, [], ◌∷◌, ◌++◌, length, length-append,
  length-drop, drop, some, bit_xor,
}
use jet3_rs.Common.Bytes.{byte_at}
use jet3_rs.Common.Pieces.{byte_at-append_left, byte_at-append_right}
use jet3_rs.Index.Key.{IndexDirection}
use jet3_rs.Index.Key.Binary.{mask_of, encode}
use jet3_rs.Index.Key.Binary.Blocks.{count}
use jet3_rs.Index.Key.Binary.Frame.{masked, framed_block, length-framed_block, frame, frame-blocks}
use jet3_rs.Index.Key.Binary.LastBlock.{byte-framed_block}
use jet3_rs.Index.Key.Binary.Prefix.{component-frame}

-- The frame of sixteen bytes is two blocks.
two_blocks :
    (direction : IndexDirection) (bytes : List ℕ)
    → length bytes ≡ 16
    → frame direction 16 bytes
      ≡ framed_block direction bytes ++ (framed_block direction (drop 8 bytes) ++ [])
two_blocks direction bytes sixteen =
    let more : ltb 8 (length bytes) ≡ true = ground arith in
    let last : ltb 8 (length (drop 8 bytes)) ≡ false = ground (arith, length-drop 8 bytes) in
    frame-blocks direction 15 bytes
    ∙ ap (λ t. framed_block direction bytes ++ t)
        (rw more (frame-blocks direction 14 (drop 8 bytes) ∙ rw last))

pub guid_bytes :
    (direction : IndexDirection) (bytes : List ℕ) {key : List ℕ}
    → length bytes ≡ 16
    → encode bytes 16 direction ≡ some key
    → (length key ≡ 19) × (byte_at key 9 ≡ 9) × (byte_at key 18 ≡ bit_xor 8 (mask_of direction))
guid_bytes direction bytes {key} sixteen e =
    let (fits, framed) = component-frame bytes 16 direction (omega arith) e in
    let blocks = rw (← sixteen) at (two_blocks direction bytes sixteen) in
    let first = framed_block direction bytes in
    let second = framed_block direction (drop 8 bytes) in
    let counts : count 8 (drop 8 bytes) ≡ 8 = omega (arith, length-drop {0} 8 bytes) in
    let ninth : byte_at (first ++ (second ++ [])) 8 ≡ 9 =
      byte_at-append_left first (second ++ []) 8
        (omega (arith, length-framed_block direction bytes))
      ∙ byte-framed_block direction bytes
      ∙ (let c : count 8 bytes ≡ 9 = omega arith in rw c) in
    let last : byte_at (first ++ (second ++ [])) 17 ≡ bit_xor 8 (mask_of direction) =
      byte_at-append_right first (second ++ []) 9 8 (length-framed_block direction bytes)
      ∙ byte_at-append_left second [] 8
          (omega (arith, length-framed_block direction (drop 8 bytes)))
      ∙ byte-framed_block direction (drop 8 bytes)
      ∙ rw counts in
    let size : length (first ++ (second ++ [])) ≡ 18 = omega (
      arith,
      length-append {0} first (second ++ []),
      length-append {0} second [],
      length-framed_block direction bytes,
      length-framed_block direction (drop 8 bytes),
    ) in
    let whole : masked direction 0x7f ∷ (first ++ (second ++ [])) ≡ key =
      ap (λ t. masked direction 0x7f ∷ t) (sym blocks) ∙ framed in
    rw (← whole) (omega arith, ninth, last)
