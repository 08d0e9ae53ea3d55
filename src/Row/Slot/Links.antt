-- ===== src/Row/Slot/Links.antt =====
-- Overflow pointers are read back as the rows they point to.
use jet3_rs.Common.{ℕ, ◌<◌, ◌≡◌, arith, List, length, ◌^◌}
use jet3_rs.Common.Results.{ok}
use jet3_rs.Row.Directory.{RowLocator}
use jet3_rs.Row.Slot.{overflow_pointer, decode_pointer}

-- A row that has a pointer lies on a page below 2 ^ 24, and the pointer is four bytes that decode
-- to the row.
pub decode_pointer-overflow_pointer :
    (row : RowLocator) (bytes : List ℕ)
    → overflow_pointer row ≡ ok bytes
    → (row.page < 2 ^ 24) × (length bytes ≡ 4) × (decode_pointer bytes ≡ row)
unfolding overflow_pointer decode_pointer
decode_pointer-overflow_pointer row bytes h = ground arith
