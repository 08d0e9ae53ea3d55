-- ===== src/Format/Writer.antt =====
-- crates/jet3/src/format/binary_writer.rs: budgeted little-endian writes into a fixed byte slice.
pub mod Writes
pub mod Sequences
use jet3_rs.Common.{
  ℕ, ◌^◌, ltb, leb, if◌then◌else◌, ◌&&◌, Option, none, some, List, length, copy_at,
}
use jet3_rs.Common.Bytes.{to_le_bytes}
use jet3_rs.Common.Int.{ℤ, to_word}
use jet3_rs.Common.Results.{
  Result, Outcome, done, fail, Op, ◌>>=◌, ◌>>◌, get, put, lift, throw, ok_or,
}
use jet3_rs.Format.Error.{Error, output_offset_out_of_bounds, output_capacity_exceeded}
use jet3_rs.Format.Offset.{ByteOffset, ByteCount, offset_add, count_sub}
use jet3_rs.Format.Resource.{ResourceBudget, charge_encoded_bytes}

pub record BinaryWriter : Type 0 where
  pub output : List ℕ
  pub capacity : ByteCount
  pub position : ByteOffset
  pub budget : ResourceBudget

-- `BinaryWriter::new`.
abbrev pub new_writer : List ℕ → ResourceBudget → BinaryWriter
new_writer output budget = record {
  output = output;
  capacity = length output;
  position = 0;
  budget = budget;
}

unfoldable pub remaining : BinaryWriter → Result Error ByteCount
unfolding count_sub
remaining w = count_sub w.capacity w.position

unfoldable pub seek : ByteOffset → Op Error BinaryWriter (Unit {0})
seek position = do
  w ← get
  if ltb w.capacity position
      then throw (output_offset_out_of_bounds position w.capacity)
      else put (record w { position = position })

-- An operation on the budget that the writer borrows.
abbrev on_budget {ℓ} : {A : Type ℓ} → Op Error ResourceBudget A → Op Error BinaryWriter A
on_budget m w = elim (m w.budget) [
  | done a b ↦ done a (record w { budget = b })
  | fail e b ↦ fail e (record w { budget = b })
]

-- `slice::get_mut(start..end)`, of which only the range counts here.
abbrev get_mut_range : List ℕ → ℕ → ℕ → Option (Unit {0})
get_mut_range xs start end = if leb start end && leb end (length xs) then some tt else none

unfoldable pub write_exact : List ℕ → Op Error BinaryWriter (Unit {0})
unfolding offset_add remaining
write_exact bytes = do
  w ← get
  end ← lift (offset_add w.position (length bytes))
  if ltb w.capacity end
      then (do
        available ← lift (remaining w)
        throw (output_capacity_exceeded w.position (length bytes) available))
      else (do
        available ← lift (remaining w)
        lift (
            ok_or (get_mut_range w.output w.position end)
              (output_capacity_exceeded w.position (length bytes) available))
        on_budget (charge_encoded_bytes (length bytes))
        charged ← get
        put (record charged { output = copy_at w.output w.position bytes; position = end }))

unfoldable pub write_u8 : ℕ → Op Error BinaryWriter (Unit {0})
write_u8 value = write_exact (to_le_bytes 1 value)

unfoldable pub write_u16_le : ℕ → Op Error BinaryWriter (Unit {0})
write_u16_le value = write_exact (to_le_bytes 2 value)

unfoldable pub write_u32_le : ℕ → Op Error BinaryWriter (Unit {0})
write_u32_le value = write_exact (to_le_bytes 4 value)

unfoldable pub write_u64_le : ℕ → Op Error BinaryWriter (Unit {0})
write_u64_le value = write_exact (to_le_bytes 8 value)

unfoldable pub write_i8 : ℤ → Op Error BinaryWriter (Unit {0})
write_i8 value = write_exact (to_le_bytes 1 (to_word (2 ^ 7) value))

unfoldable pub write_i16_le : ℤ → Op Error BinaryWriter (Unit {0})
write_i16_le value = write_exact (to_le_bytes 2 (to_word (2 ^ 15) value))

unfoldable pub write_i32_le : ℤ → Op Error BinaryWriter (Unit {0})
write_i32_le value = write_exact (to_le_bytes 4 (to_word (2 ^ 31) value))

unfoldable pub write_i64_le : ℤ → Op Error BinaryWriter (Unit {0})
write_i64_le value = write_exact (to_le_bytes 8 (to_word (2 ^ 63) value))
