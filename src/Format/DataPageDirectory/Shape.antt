-- ===== src/Format/DataPageDirectory/Shape.antt =====
-- The well-formed directory, described row by row with no reference to the code that checks it.
use jet3_rs.Common.{ℕ, zero, suc, ◌*◌, ◌/◌, ◌%◌, ◌≤◌, ◌<◌, ◌≡◌, List, bit_and, ◌⊎◌}
use jet3_rs.Common.Bits.{bit_and_mask, bit_and_bit}
use jet3_rs.Format.DataPageDirectory.{raw_offset, page_bytes, directory_end_of}

-- The parts of an entry's word.
abbrev pub start_of : ℕ → ℕ
start_of raw = raw % 8192

abbrev pub unknown_bit : ℕ → ℕ
unknown_bit raw = raw / 8192 % 2

abbrev pub overflow_bit : ℕ → ℕ
overflow_bit raw = raw / 16384 % 2

abbrev pub hidden_bit : ℕ → ℕ
hidden_bit raw = raw / 32768 % 2

-- A word that may stand in a directory: no unknown flag, the row's bytes between the directory and
-- the row's end, and some bytes in it unless it is hidden.
pub record IsWord (raw row_end directory_end : ℕ) : Type 0 where
  pub known : unknown_bit raw ≡ 0
  pub after_directory : directory_end ≤ start_of raw
  pub ordered : start_of raw ≤ row_end
  pub occupied : (hidden_bit raw ≡ 1) ⊎ (start_of raw < row_end)

-- A row ends where the row before it starts, and the first row at the end of the page.
abbrev pub end_of : List ℕ → ℕ → ℕ
end_of page zero = page_bytes
end_of page (suc before) = start_of (raw_offset page before)

-- The entry of a row in a directory of `row_count` rows.
abbrev pub IsEntry : List ℕ → ℕ → ℕ → Type 0
IsEntry page row_count row =
    IsWord (raw_offset page row) (end_of page row) (directory_end_of row_count)

pub masked_start : (raw : ℕ) → bit_and raw 0x1fff ≡ raw % 8192
masked_start raw = bit_and_mask 13 raw

pub unknown_flag_bit : (raw : ℕ) → bit_and raw 0x2000 ≡ raw / 8192 % 2 * 8192
unknown_flag_bit raw = bit_and_bit 13 raw

pub overflow_flag_bit : (raw : ℕ) → bit_and raw 0x4000 ≡ raw / 16384 % 2 * 16384
overflow_flag_bit raw = bit_and_bit 14 raw

pub hidden_flag_bit : (raw : ℕ) → bit_and raw 0x8000 ≡ raw / 32768 % 2 * 32768
hidden_flag_bit raw = bit_and_bit 15 raw
