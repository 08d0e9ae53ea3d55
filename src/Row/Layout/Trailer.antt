-- ===== src/Row/Layout/Trailer.antt =====
-- crates/jet3/src/row/writer.rs: the last bytes of a row, which `write_row` writes behind the variable
-- fields, and how the reader's layout finds the boundaries in them.
pub mod Jumps
pub mod Boundaries
pub mod Accepted
pub mod Validated
use jet3_rs.Common.{
  ℕ, zero, suc, ◌+◌, ◌-◌, ◌*◌, ◌%◌, ltb, leb, ◌==◌, if◌then◌else◌, Option, none, some, List, [],
  ◌∷◌, ◌++◌, length, map,
}

-- `boundaries.iter().position(|boundary| *boundary >= threshold)`, counted from `ordinal`.
unfoldable pub position_from : (ordinal threshold : ℕ) → List ℕ → Option ℕ
position_from ordinal threshold [] = none
position_from ordinal threshold (boundary ∷ boundaries) =
    if leb threshold boundary
    then some ordinal
    else position_from (ordinal + 1) threshold boundaries

-- `map_or(0xff, |ordinal| ordinal as u8)`.
abbrev pub ordinal_byte : Option ℕ → ℕ
ordinal_byte none = 0xff
ordinal_byte (some ordinal) = ordinal % 256

unfoldable pub jump_byte : (block : ℕ) → List ℕ → ℕ
unfolding position_from
jump_byte block boundaries = ordinal_byte (position_from 0 (256 * block) boundaries)

-- The loop over the blocks from `jumps` down to 1.
unfoldable pub write_jumps : (jumps : ℕ) → List ℕ → List ℕ
write_jumps zero boundaries = []
write_jumps (suc jumps) boundaries = jump_byte (suc jumps) boundaries ∷ write_jumps jumps boundaries

-- `(boundary & 0xff) as u8` of each boundary, the last one first.
unfoldable pub low_bytes : List ℕ → List ℕ
low_bytes [] = []
low_bytes (boundary ∷ boundaries) = low_bytes boundaries ++ (boundary % 256 ∷ [])

-- What is written behind the fields of a row with variable columns, up to the count.
unfoldable pub trailer : (jumps : ℕ) → List ℕ → List ℕ
unfolding write_jumps low_bytes
trailer jumps boundaries =
    low_bytes boundaries ++ (write_jumps jumps boundaries ++ ((length boundaries - 1) % 256 ∷ []))
