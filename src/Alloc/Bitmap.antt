-- ===== src/Alloc/Bitmap.antt =====
-- crates/jet3/src/alloc/map.rs: the cursor over the set bits of a bitmap, lowest bit of a byte first.
pub mod Position
pub mod Scan
pub mod Drain
use jet3_rs.Common.{
  ℕ, zero, suc, ◌+◌, ◌*◌, ◌^◌, ltb, ◌==◌, if◌then◌else◌, Bool, true, false, not, ◌&&◌, ◌||◌, String,
  Option, none, some, List, length, bit_and,
}
use jet3_rs.Common.Bytes.{byte_at}
use jet3_rs.Common.Results.{Result, ok, err, Outcome, done, fail, Op, on_error, continue}
use jet3_rs.Format.Error.{Error, arithmetic}
use jet3_rs.Format.Offset.{checked_add}
use jet3_rs.Format.Resource.{ResourceBudget, charge_items}

pub record SetBitCursor : Type 0 where
  pub byte_index : ℕ
  pub bit_in_byte : ℕ
  pub bit_index : ℕ
  pub exhausted : Bool

pub data SetBitError : Type 0 where
  resource : Error → SetBitError
  arithmetic_failure : Error → SetBitError

unfoldable pub into_error : SetBitError → Error
into_error (resource source) = source
into_error (arithmetic_failure source) = source

abbrev pub new_cursor : SetBitCursor
new_cursor = record { byte_index = 0; bit_in_byte = 0; bit_index = 0; exhausted = false }

-- `checked_add` of a `u8`.
abbrev checked_add_u8 : ℕ → ℕ → Option ℕ
checked_add_u8 a b = if ltb (a + b) 256 then some (a + b) else none

-- The cursor that gives up: `done` is set, and what was assigned before stays.
abbrev give_up : String → SetBitCursor → Outcome SetBitError SetBitCursor (Unit {0})
give_up operation c =
    fail (arithmetic_failure (arithmetic operation)) (record c { exhausted = true })

-- The last statements of `advance`: to the next byte behind its bit 7, and the end of the bitmap.
abbrev finish_byte : ℕ → SetBitCursor → Outcome SetBitError SetBitCursor (Unit {0})
finish_byte byte_len c =
    done tt (record c { exhausted = c.exhausted || (c.byte_index == byte_len) })

abbrev next_byte : ℕ → SetBitCursor → Outcome SetBitError SetBitCursor (Unit {0})
next_byte byte_len c =
    if c.bit_in_byte == 8
    then elim (checked_add c.byte_index 1) [
      | none ↦ give_up "advance allocation-map bitmap byte" (record c { bit_in_byte = 0 })
      | some byte ↦ finish_byte byte_len (record c { bit_in_byte = 0; byte_index = byte })
    ]
    else finish_byte byte_len c

unfoldable pub advance : ℕ → Op SetBitError SetBitCursor (Unit {0})
advance byte_len c = elim (checked_add c.bit_index 1) [
  | none ↦ give_up "advance allocation-map bit index" c
  | some index ↦
      let c' : SetBitCursor = record c { bit_index = index } in
      elim (checked_add_u8 c'.bit_in_byte 1) [
        | none ↦ give_up "advance allocation-map bit within byte" c'
        | some bit ↦ next_byte byte_len (record c' { bit_in_byte = bit })
      ]
]

-- `bytes[byte_index] & (1 << bit_in_byte) != 0`.
abbrev pub bit_is_set : List ℕ → SetBitCursor → Bool
bit_is_set bytes c = not (bit_and (byte_at bytes c.byte_index) (2 ^ c.bit_in_byte) == 0)

-- The charge of one bit, on the budget beside the cursor.
abbrev pub charge_bit : Op SetBitError (SetBitCursor × ResourceBudget) (Unit {0})
charge_bit (c, budget) = elim (charge_items 1 budget) [
  | done _ paid ↦ done tt (c, paid)
  | fail e paid ↦ fail (resource e) (c, paid)
]

abbrev pub advance_cursor : ℕ → Op SetBitError (SetBitCursor × ResourceBudget) (Unit {0})
advance_cursor byte_len (c, budget) = elim (advance byte_len c) [
  | done _ c' ↦ done tt (c', budget)
  | fail e c' ↦ fail e (c', budget)
]

-- The loop of `next_set_bit`, at most `fuel` times round.
unfoldable pub scan : ℕ → List ℕ → Op SetBitError (SetBitCursor × ResourceBudget) (Option ℕ)
scan zero bytes s = done none s
scan (suc fuel) bytes s =
    if not s.0.exhausted && ltb s.0.byte_index (length bytes)
    then continue (charge_bit s) (λ _ paid.
      continue (advance_cursor (length bytes) paid) (λ _ moved.
        let rest = scan fuel bytes moved in
        if bit_is_set bytes s.0 then done (some s.0.bit_index) moved else rest))
    else done none s

-- `next_set_bit`, with a round for every bit of the bitmap and one for the end.
unfoldable pub next_set_bit : List ℕ → Op SetBitError (SetBitCursor × ResourceBudget) (Option ℕ)
next_set_bit bytes = scan (suc (8 * length bytes)) bytes
