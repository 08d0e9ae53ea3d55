-- ===== src/Index/Key/Binary/LastBlock.antt =====
-- The byte behind a block tells whether the value goes on, and the last block passes its checks.
use jet3_rs.Common.{
  ℕ, zero, suc, ◌+◌, ◌≤◌, ◌<◌, ◌≡◌, refl, ◌∙◌, arith, ltb, ◌==◌, some, List, [], ◌∷◌, ◌++◌, map,
  length, length-map, slice,
}
use jet3_rs.Common.Bytes.{byte_at}
use jet3_rs.Index.Key.{IndexDirection, ascending, descending, complete}
use jet3_rs.Index.Key.Binary.{mask_of, last_chunk}
use jet3_rs.Index.Key.Binary.Blocks.{block, count, length-block}
use jet3_rs.Index.Key.Binary.Frame.{masked, tail_byte, framed_block, masked-zero}
use jet3_rs.Index.Key.Binary.Masked.{masked-masked, tail_byte-count}
use jet3_rs.Index.Key.Binary.Loop.{filling-any_other}

byte_at-append_end : (xs : List ℕ) (b n : ℕ) → length xs ≡ n → byte_at (xs ++ (b ∷ [])) n ≡ b
byte_at-append_end [] b zero e = refl
byte_at-append_end [] b (suc n) e = absurd (omega arith)
byte_at-append_end (x ∷ xs) b zero e = absurd (omega arith)
byte_at-append_end (x ∷ xs) b (suc n) e = byte_at-append_end xs b n (omega arith)

pub byte-framed_block :
    (direction : IndexDirection) (xs : List ℕ)
    → byte_at (framed_block direction xs) 8 ≡ tail_byte direction (count 8 xs)
byte-framed_block direction xs =
    byte_at-append_end (map (masked direction) (block 8 xs)) (tail_byte direction (count 8 xs)) 8
      (length-map (masked direction) (block 8 xs) ∙ length-block 8 xs)

-- Only a block with more behind it ends in 9.
pub tail-more :
    (direction : IndexDirection) (xs : List ℕ)
    → (byte_at (framed_block direction xs) 8 == 9) ≡ ltb 8 (length xs)
tail-more ascending xs =
    rw (byte-framed_block ascending xs)
      (ground (arith, tail_byte-count ascending (count 8 xs) (omega arith)))
tail-more descending xs =
    rw (byte-framed_block descending xs)
      (ground (arith, tail_byte-count descending (count 8 xs) (omega arith)))

pub last_chunk-framed_block :
    (direction : IndexDirection) (available offset : ℕ) (xs : List ℕ)
    → 0 < length xs
    → length xs ≤ 8
    → length xs ≤ available
    → last_chunk (mask_of direction) available offset (framed_block direction xs)
      ≡ some (complete (offset + 9))
unfolding last_chunk slice
last_chunk-framed_block direction available offset xs present short fits =
    let tail : tail_byte direction (count 8 xs) ≡ masked direction (length xs) =
      (let e : count 8 xs ≡ length xs = omega arith in rw e (ground arith)) in
    let back : masked direction (byte_at (framed_block direction xs) 8) ≡ length xs =
      rw (byte-framed_block direction xs)
        (rw tail (masked-masked direction (length xs) (omega arith))) in
    let clean =
      rw (masked-zero direction) at
        (filling-any_other (masked direction) 8 xs (tail_byte direction (count 8 xs) ∷ []) short) in
    rw back (rw clean (ground arith))
