-- ===== src/Alloc/Bitmap/Position.antt =====
-- The cursor at a bit, and the step from a bit to the next.
use jet3_rs.Common.{
  ℕ, suc, ◌*◌, ◌/◌, ◌%◌, ◌^◌, ◌<◌, ◌≡◌, refl, arith, List, length, ltb, ◌==◌, ◌&&◌,
}
use jet3_rs.Common.Bits.{bit_and_bit}
use jet3_rs.Common.Bytes.{byte_at}
use jet3_rs.Common.Results.{done}
use jet3_rs.Alloc.Bitmap.{SetBitCursor, new_cursor, advance, bit_is_set}

-- Bit `i` of a bitmap.
abbrev pub bit_at : List ℕ → ℕ → ℕ
bit_at bytes i = byte_at bytes (i / 8) / 2 ^ (i % 8) % 2

abbrev pub bit_count : List ℕ → ℕ
bit_count bytes = 8 * length bytes

-- The cursor that has passed the bits below `i`.
abbrev pub standing_at : List ℕ → ℕ → SetBitCursor
standing_at bytes i = record {
  byte_index = i / 8;
  bit_in_byte = i % 8;
  bit_index = i;
  exhausted = ltb 0 i && (i == bit_count bytes);
}

pub new_cursor-standing_at : (bytes : List ℕ) → new_cursor ≡ standing_at bytes 0
new_cursor-standing_at bytes = refl

pub advance-standing_at :
    (bytes : List ℕ) (i : ℕ)
    → bit_count bytes < 2 ^ 64
    → i < bit_count bytes
    → advance (length bytes) (standing_at bytes i) ≡ done tt (standing_at bytes (suc i))
unfolding advance
advance-standing_at bytes i small h = ground arith

pub bit_is_set-bit_at :
    (bytes : List ℕ) (i : ℕ) → bit_is_set bytes (standing_at bytes i) ≡ (bit_at bytes i == 1)
bit_is_set-bit_at bytes i = ground (arith, bit_and_bit (i % 8) (byte_at bytes (i / 8)))
