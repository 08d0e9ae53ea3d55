-- ===== src/Format/Words.antt =====
-- The primitives that `BinaryWriter` writes are read back by `BinaryCursor`.
use jet3_rs.Common.{
  ℕ, ◌+◌, ◌<◌, ◌^◌, ◌≡◌, refl, arith, List, length, copy_at, slice, slice-copy_at, length-copy_at,
  sym, ap, ◌∙◌,
}
use jet3_rs.Common.Bytes.{to_le_bytes, length-to_le_bytes, from_le_bytes-to_le_bytes}
use jet3_rs.Common.Int.{ℤ, FitsSigned, to_word, to_word-lt, from_word-to_word}
use jet3_rs.Common.Results.{Op, ◌>>=◌, done, return}
use jet3_rs.Format.Error.{Error}
use jet3_rs.Format.Limits.{ReadBudget}
use jet3_rs.Format.Limits.Accounting.{ReadFits}
use jet3_rs.Format.Cursor.{
  BinaryCursor, read_exact, read_u8, read_u16_le, read_u32_le, read_u64_le, read_i8, read_i16_le,
  read_i32_le, read_i64_le,
}
use jet3_rs.Format.Cursor.Reads.{advance, read_exact_iff}
use jet3_rs.Format.Writer.{
  BinaryWriter, write_exact, write_u8, write_u16_le, write_u32_le, write_u64_le, write_i8,
  write_i16_le, write_i32_le, write_i64_le,
}
use jet3_rs.Format.Writer.Writes.{IsWriter, write_exact_iff}

-- A value of one of the integer types that the two sides share.
pub data Primitive : Type 0 where
  u8 u16 u32 u64 : ℕ → Primitive
  i8 i16 i32 i64 : ℤ → Primitive

abbrev pub width : Primitive → ℕ
width (u8 v) = 1
width (u16 v) = 2
width (u32 v) = 4
width (u64 v) = 8
width (i8 v) = 1
width (i16 v) = 2
width (i32 v) = 4
width (i64 v) = 8

-- The value is one of its type.
abbrev pub InType : Primitive → Type 0
InType (u8 v) = v < 2 ^ 8
InType (u16 v) = v < 2 ^ 16
InType (u32 v) = v < 2 ^ 32
InType (u64 v) = v < 2 ^ 64
InType (i8 v) = FitsSigned (2 ^ 7) v
InType (i16 v) = FitsSigned (2 ^ 15) v
InType (i32 v) = FitsSigned (2 ^ 31) v
InType (i64 v) = FitsSigned (2 ^ 63) v

unfoldable pub write : Primitive → Op Error BinaryWriter (Unit {0})
write (u8 v) = write_u8 v
write (u16 v) = write_u16_le v
write (u32 v) = write_u32_le v
write (u64 v) = write_u64_le v
write (i8 v) = write_i8 v
write (i16 v) = write_i16_le v
write (i32 v) = write_i32_le v
write (i64 v) = write_i64_le v

-- Reads a value of the type of the given one.
unfoldable pub read_like : Primitive → Op Error BinaryCursor Primitive
read_like (u8 _) = do v ← read_u8; return (u8 v)
read_like (u16 _) = do v ← read_u16_le; return (u16 v)
read_like (u32 _) = do v ← read_u32_le; return (u32 v)
read_like (u64 _) = do v ← read_u64_le; return (u64 v)
read_like (i8 _) = do v ← read_i8; return (i8 v)
read_like (i16 _) = do v ← read_i16_le; return (i16 v)
read_like (i32 _) = do v ← read_i32_le; return (i32 v)
read_like (i64 _) = do v ← read_i64_le; return (i64 v)

-- A cursor at the writer's old position.
abbrev pub at_start_of : BinaryWriter → List ℕ → ReadBudget → BinaryCursor
at_start_of w output b = record { input = output; position = w.position; budget = b }

module _ (w w' : BinaryWriter) (b : ReadBudget) (v : IsWriter w)
    (limit : b.limits.max_total_read_bytes < 2 ^ 64) where
  -- The bytes of one write, read in one piece.
  read_exact-write_exact :
      (bytes : List ℕ)
      → write_exact bytes w ≡ done tt w'
      → ReadFits b (length bytes)
      → let c = at_start_of w w'.output b in
        read_exact (length bytes) c ≡ done bytes (advance (length bytes) c)
  read_exact-write_exact bytes h fits =
      let (room, paid, after) = (write_exact_iff bytes w w' v).0 h in
      let out : w'.output ≡ copy_at w.output w.position bytes =
        ap (λ (u : BinaryWriter). u.output) after in
      let len : length w'.output ≡ length w.output =
        ap length out ∙ length-copy_at w.output w.position bytes in
      let back : bytes ≡ slice w'.output w.position (w.position + length bytes) =
        rw out (sym (slice-copy_at w.output w.position bytes (omega arith))) in
      (read_exact_iff (length bytes) _ _ bytes (omega arith)).1 (fits, omega arith, back, refl)

  read_word :
      (n x : ℕ)
      → write_exact (to_le_bytes n x) w ≡ done tt w'
      → ReadFits b n
      → let c = at_start_of w w'.output b in read_exact n c ≡ done (to_le_bytes n x) (advance n c)
  read_word n x h fits =
      rw (length-to_le_bytes n x) at
        (read_exact-write_exact (to_le_bytes n x) h (rw (length-to_le_bytes n x) fits))

  -- For a writer inside its output and limits that are `u64` values, an integer of any of the
  -- eight types that fits its type and that the writer wrote is the integer that a cursor reads at
  -- the same place, where the cursor's budget allows the read.
  pub read_like-write :
      (x : Primitive)
      → InType x
      → write x w ≡ done tt w'
      → ReadFits b (width x)
      → let c = at_start_of w w'.output b in read_like x c ≡ done x (advance (width x) c)
  unfolding write write_u8 write_u16_le write_u32_le write_u64_le write_i8 write_i16_le write_i32_le
      write_i64_le read_like read_u8 read_u16_le read_u32_le read_u64_le read_i8 read_i16_le
      read_i32_le read_i64_le
  read_like-write (u8 x) t h fits =
      ground (arith, read_word 1 x h fits, from_le_bytes-to_le_bytes 1 x (omega arith))
  read_like-write (u16 x) t h fits =
      ground (arith, read_word 2 x h fits, from_le_bytes-to_le_bytes 2 x (omega arith))
  read_like-write (u32 x) t h fits =
      ground (arith, read_word 4 x h fits, from_le_bytes-to_le_bytes 4 x (omega arith))
  read_like-write (u64 x) t h fits =
      ground (arith, read_word 8 x h fits, from_le_bytes-to_le_bytes 8 x (omega arith))
  read_like-write (i8 x) t h fits = ground (
    arith,
    read_word 1 (to_word (2 ^ 7) x) h fits,
    from_word-to_word (2 ^ 7) x t,
    from_le_bytes-to_le_bytes 1 (to_word (2 ^ 7) x) (to_word-lt (2 ^ 7) x t),
  )
  read_like-write (i16 x) t h fits = ground (
    arith,
    read_word 2 (to_word (2 ^ 15) x) h fits,
    from_word-to_word (2 ^ 15) x t,
    from_le_bytes-to_le_bytes 2 (to_word (2 ^ 15) x) (to_word-lt (2 ^ 15) x t),
  )
  read_like-write (i32 x) t h fits = ground (
    arith,
    read_word 4 (to_word (2 ^ 31) x) h fits,
    from_word-to_word (2 ^ 31) x t,
    from_le_bytes-to_le_bytes 4 (to_word (2 ^ 31) x) (to_word-lt (2 ^ 31) x t),
  )
  read_like-write (i64 x) t h fits = ground (
    arith,
    read_word 8 (to_word (2 ^ 63) x) h fits,
    from_word-to_word (2 ^ 63) x t,
    from_le_bytes-to_le_bytes 8 (to_word (2 ^ 63) x) (to_word-lt (2 ^ 63) x t),
  )
