-- ===== src/Format/Cursor.antt =====
-- crates/jet3/src/format/binary.rs: budgeted little-endian reads over a byte slice.
pub mod Reads
use jet3_rs.Common.{ℕ, ◌^◌, ltb, leb, if◌then◌else◌, ◌&&◌, Option, none, some, List, length, slice}
use jet3_rs.Common.Bytes.{from_le_bytes}
use jet3_rs.Common.Int.{ℤ, from_word}
use jet3_rs.Common.Results.{
  Result, ok, err, Outcome, done, fail, Op, ◌>>=◌, ◌>>◌, get, put, lift, return, throw, and_then,
  ok_or,
}
use jet3_rs.Format.Error.{Error, offset_out_of_bounds, unexpected_end}
use jet3_rs.Format.Offset.{ByteOffset, ByteCount, offset_add, count_sub}
use jet3_rs.Format.Limits.{ReadBudget, check_input, check_read, charge_read_attempt}

pub record BinaryCursor : Type 0 where
  pub input : List ℕ
  pub position : ByteOffset
  pub budget : ReadBudget

-- `BinaryCursor::new`; the budget is only checked.
unfoldable pub new_cursor : List ℕ → ReadBudget → Result Error BinaryCursor
unfolding check_input
new_cursor input budget =
    and_then (check_input budget (length input))
      λ _. ok (record { input = input; position = 0; budget = budget })

unfoldable pub remaining : BinaryCursor → Result Error ByteCount
unfolding count_sub
remaining c = count_sub (length c.input) c.position

unfoldable pub seek : ByteOffset → Op Error BinaryCursor (Unit {0})
seek position = do
  c ← get
  if ltb (length c.input) position
      then throw (offset_out_of_bounds position (length c.input))
      else put (record c { position = position })

-- `slice::get(start..end)`.
abbrev get_range : List ℕ → ℕ → ℕ → Option (List ℕ)
get_range xs start end =
    if leb start end && leb end (length xs) then some (slice xs start end) else none

-- An operation on the budget that the cursor borrows.
abbrev on_budget {ℓ} : {A : Type ℓ} → Op Error ReadBudget A → Op Error BinaryCursor A
on_budget m c = elim (m c.budget) [
  | done a b ↦ done a (record c { budget = b })
  | fail e b ↦ fail e (record c { budget = b })
]

unfoldable pub read_exact : ByteCount → Op Error BinaryCursor (List ℕ)
unfolding check_read charge_read_attempt offset_add remaining
read_exact count = do
  c ← get
  lift (check_read c.budget count)
  end ← lift (offset_add c.position count)
  if ltb (length c.input) end
      then (do available ← lift (remaining c); throw (unexpected_end c.position count available))
      else (do
        on_budget (charge_read_attempt count)
        available ← lift (remaining c)
        bytes ←
            lift
              (ok_or (get_range c.input c.position end) (unexpected_end c.position count available))
        charged ← get
        put (record charged { position = end })
        return bytes)

unfoldable pub skip : ByteCount → Op Error BinaryCursor (Unit {0})
skip count = do _ ← read_exact count; return tt

-- The primitives are `from_le_bytes` of `read_array` with the width's bytes.
unfoldable pub read_u8 : Op Error BinaryCursor ℕ
read_u8 = do bytes ← read_exact 1; return (from_le_bytes bytes)

unfoldable pub read_u16_le : Op Error BinaryCursor ℕ
read_u16_le = do bytes ← read_exact 2; return (from_le_bytes bytes)

unfoldable pub read_u32_le : Op Error BinaryCursor ℕ
read_u32_le = do bytes ← read_exact 4; return (from_le_bytes bytes)

unfoldable pub read_u64_le : Op Error BinaryCursor ℕ
read_u64_le = do bytes ← read_exact 8; return (from_le_bytes bytes)

unfoldable pub read_i8 : Op Error BinaryCursor ℤ
read_i8 = do bytes ← read_exact 1; return (from_word (2 ^ 7) (from_le_bytes bytes))

unfoldable pub read_i16_le : Op Error BinaryCursor ℤ
read_i16_le = do bytes ← read_exact 2; return (from_word (2 ^ 15) (from_le_bytes bytes))

unfoldable pub read_i32_le : Op Error BinaryCursor ℤ
read_i32_le = do bytes ← read_exact 4; return (from_word (2 ^ 31) (from_le_bytes bytes))

unfoldable pub read_i64_le : Op Error BinaryCursor ℤ
read_i64_le = do bytes ← read_exact 8; return (from_word (2 ^ 63) (from_le_bytes bytes))
