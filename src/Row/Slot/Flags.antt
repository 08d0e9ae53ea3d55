-- ===== src/Row/Slot/Flags.antt =====
-- The flags that are written for a slot are read back as the slot.
use jet3_rs.Common.{ℕ, ◌+◌, ◌-◌, ◌*◌, ◌/◌, ◌%◌, ◌≤◌, ◌<◌, ◌≡◌, refl, arith, bit_or, ◌==◌, ==_iff}
use jet3_rs.Common.Bits.{test_below}
use jet3_rs.Common.Results.{ok}
use jet3_rs.Format.DataPageDirectory.{has_flag}
use jet3_rs.Format.DataPageDirectory.Shape.{overflow_flag_bit, hidden_flag_bit}
use jet3_rs.Row.Directory.{RowLocator, RowEntry}
use jet3_rs.Row.Slot.{
  RowSlot, ordinary, link, storage, storage_link, deleted, flags, check_length, read,
}

-- The entry of a row whose directory word is the given one.
abbrev pub entry_of_word : RowLocator → ℕ → ℕ → ℕ → RowEntry
entry_of_word locator word start end = record {
  locator = locator;
  start = start;
  end = end;
  overflow = has_flag word 0x4000;
  hidden = has_flag word 0x8000;
}

-- A slot of a length that the slot allows is read back from the word of its start, which fits 13
-- bits, and its flags.
pub read-flags :
    (slot : RowSlot) (locator : RowLocator) (start end : ℕ)
    → start < 8192
    → check_length slot (end - start) ≡ ok tt
    → read (entry_of_word locator (start + flags slot) start end) ≡ ok slot
unfolding read flags check_length
read-flags ordinary locator start end inside h =
    ground (arith, overflow_flag_bit start, hidden_flag_bit start)
read-flags link locator start end inside h =
    ground (arith, overflow_flag_bit (start + 0x4000), hidden_flag_bit (start + 0x4000))
read-flags storage locator start end inside h =
    ground (arith, overflow_flag_bit (start + 0x8000), hidden_flag_bit (start + 0x8000))
read-flags storage_link locator start end inside h =
    ground (arith, overflow_flag_bit (start + 0xc000), hidden_flag_bit (start + 0xc000))
read-flags deleted locator start end inside h =
    ground (arith, overflow_flag_bit (start + 0xc000), hidden_flag_bit (start + 0xc000))

-- A slot that is read has a length that it allows, and the entry's flags are the slot's.
pub read_lem :
    (e : RowEntry) (slot : RowSlot)
    → read e ≡ ok slot
    → (check_length slot (e.end - e.start) ≡ ok tt)
      × (e.overflow ≡ has_flag (flags slot) 0x4000)
      × (e.hidden ≡ has_flag (flags slot) 0x8000)
unfolding read flags check_length
read_lem e slot h = ground arith

-- A start in the page has none of the bits of the flags.
pub or_flags :
    (state : RowSlot) (start : ℕ) → start ≤ 2048 → bit_or start (flags state) ≡ start + flags state
unfolding flags
or_flags ordinary start h =
    (==_iff _ _).0 (test_below (λ x. bit_or x 0 == x + 0) 2049 start refl (omega arith))
or_flags link start h =
    (==_iff _ _).0 (test_below (λ x. bit_or x 0x4000 == x + 0x4000) 2049 start refl (omega arith))
or_flags storage start h =
    (==_iff _ _).0 (test_below (λ x. bit_or x 0x8000 == x + 0x8000) 2049 start refl (omega arith))
or_flags storage_link start h =
    (==_iff _ _).0 (test_below (λ x. bit_or x 0xc000 == x + 0xc000) 2049 start refl (omega arith))
or_flags deleted start h =
    (==_iff _ _).0 (test_below (λ x. bit_or x 0xc000 == x + 0xc000) 2049 start refl (omega arith))

pub flags-lt : (state : RowSlot) → flags state ≤ 0xc000
unfolding flags
flags-lt ordinary = omega arith
flags-lt link = omega arith
flags-lt storage = omega arith
flags-lt storage_link = omega arith
flags-lt deleted = omega arith

-- The flags of a slot that is read are those of its directory word.
pub flags-read :
    (locator : RowLocator) (word start end : ℕ) (slot : RowSlot)
    → read (entry_of_word locator word start end) ≡ ok slot
    → flags slot ≡ word / 16384 % 2 * 16384 + word / 32768 % 2 * 32768
unfolding read flags check_length
flags-read locator word start end slot h =
    ground (arith, overflow_flag_bit word, hidden_flag_bit word)
