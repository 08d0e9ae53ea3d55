-- ===== src/Format/Offset.antt =====
-- crates/jet3/src/format/offset.rs: byte positions and lengths, `u64` values with checked
-- arithmetic. `usize` has 64 bits too, so the conversions between the two never fail and are left
-- out.
use jet3_rs.Common.{ℕ, ◌+◌, ◌-◌, ◌^◌, ltb, leb, if◌then◌else◌, Option, none, some}
use jet3_rs.Common.Results.{Result, ok_or}
use jet3_rs.Format.Error.{Error, arithmetic}

abbrev pub ByteOffset : Type 0
ByteOffset = ℕ

abbrev pub ByteCount : Type 0
ByteCount = ℕ

-- `u64::checked_add`, `u64::checked_sub`.
abbrev pub checked_add : ℕ → ℕ → Option ℕ
checked_add a b = if ltb (a + b) (2 ^ 64) then some (a + b) else none

abbrev pub checked_sub : ℕ → ℕ → Option ℕ
checked_sub a b = if leb b a then some (a - b) else none

unfoldable pub offset_add : ByteOffset → ByteCount → Result Error ByteOffset
offset_add offset count = ok_or (checked_add offset count) (arithmetic "offset addition")

unfoldable pub offset_sub : ByteOffset → ByteCount → Result Error ByteOffset
offset_sub offset count = ok_or (checked_sub offset count) (arithmetic "offset subtraction")

unfoldable pub count_add : ByteCount → ByteCount → Result Error ByteCount
count_add a b = ok_or (checked_add a b) (arithmetic "byte-count addition")

unfoldable pub count_sub : ByteCount → ByteCount → Result Error ByteCount
count_sub a b = ok_or (checked_sub a b) (arithmetic "byte-count subtraction")
