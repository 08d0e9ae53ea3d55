-- ===== src/Row/Value.antt =====
-- crates/jet3/src/row/writer.rs: the values of a row. A floating-point value stands as its bits, as
-- `to_bits` gives them; bytes are slices or arrays of bytes.
use jet3_rs.Common.{ℕ, ◌^◌, ◌<◌, ◌≡◌, List, Bool, length}
use jet3_rs.Common.Bytes.{AllBytes}
use jet3_rs.Common.Int.{ℤ, FitsSigned}

pub data RowValue : Type 0 where
  null auto_increment : RowValue
  boolean : Bool → RowValue
  byte : ℕ → RowValue
  integer long : ℤ → RowValue
  currency : (scaled : ℤ) → RowValue
  single double : (bits : ℕ) → RowValue
  date_time : (days : ℕ) → RowValue
  binary text guid : List ℕ → RowValue
  memo long_binary long_value : List ℕ → RowValue

-- What the types of the source guarantee of a value.
abbrev pub IsRowValue : RowValue → Type 0
IsRowValue (byte v) = v < 256
IsRowValue (integer v) = FitsSigned (2 ^ 15) v
IsRowValue (long v) = FitsSigned (2 ^ 31) v
IsRowValue (currency v) = FitsSigned (2 ^ 63) v
IsRowValue (single bits) = bits < 2 ^ 32
IsRowValue (double bits) = bits < 2 ^ 64
IsRowValue (date_time bits) = bits < 2 ^ 64
IsRowValue (binary bytes) = AllBytes bytes
IsRowValue (guid bytes) = (length bytes ≡ 16) × AllBytes bytes
IsRowValue value = Unit {0}
