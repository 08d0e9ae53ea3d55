-- ===== src/Common/Bytes.antt =====
-- Bytes and little-endian words. A `u8` is a number below 256; a slice or an array of bytes is a
-- list of such.
use Prim.Native.Nat.{ℕ, zero, suc, ◌+◌, ◌*◌, ◌/◌, ◌%◌, ◌^◌, ◌≤◌, ◌<◌}
use mathlib.Core.Path.{◌≡◌, refl, ap}
use mathlib.Core.List.{List, [], ◌∷◌, ◌++◌}
use native.Mathlib.Nat.{pow-suc}
use native.Mathlib.Omega.{arith}
use jet3_rs.Common.Lists.{length, replicate, get_or, copy_at, get_or-copy_at_plus}

abbrev pub byte_at : List ℕ → ℕ → ℕ
byte_at xs i = get_or xs i 0

abbrev pub AllBytes : List ℕ → Type 0
AllBytes [] = Unit {0}
AllBytes (b ∷ bs) = (b < 256) × AllBytes bs

pub AllBytes-append : (xs ys : List ℕ) → AllBytes xs → AllBytes ys → AllBytes (xs ++ ys)
AllBytes-append [] ys h k = k
AllBytes-append (x ∷ xs) ys h k = (h.0, AllBytes-append xs ys h.1 k)

pub replicate-AllBytes : (n b : ℕ) → b < 256 → AllBytes (replicate n b)
replicate-AllBytes zero b h = tt
replicate-AllBytes (suc n) b h = (h, replicate-AllBytes n b h)

-- `from_le_bytes`, lowest byte first.
abbrev pub from_le_bytes : List ℕ → ℕ
from_le_bytes [] = 0
from_le_bytes (b ∷ bs) = b + 256 * from_le_bytes bs

-- `to_le_bytes` of an integer of `n` bytes.
abbrev pub to_le_bytes : ℕ → ℕ → List ℕ
to_le_bytes zero v = []
to_le_bytes (suc n) v = (v % 256) ∷ to_le_bytes n (v / 256)

pub length-to_le_bytes : (n v : ℕ) → length (to_le_bytes n v) ≡ n
length-to_le_bytes zero v = refl
length-to_le_bytes (suc n) v = ap suc (length-to_le_bytes n (v / 256))

pub to_le_bytes-AllBytes : (n v : ℕ) → AllBytes (to_le_bytes n v)
to_le_bytes-AllBytes zero v = tt
to_le_bytes-AllBytes (suc n) v = (omega arith, to_le_bytes-AllBytes n (v / 256))

pub from_le_bytes-to_le_bytes : (n v : ℕ) → v < 256 ^ n → from_le_bytes (to_le_bytes n v) ≡ v
from_le_bytes-to_le_bytes zero v h = omega arith
from_le_bytes-to_le_bytes (suc n) v h =
    omega
      (arith, pow-suc 256 n, from_le_bytes-to_le_bytes n (v / 256) (omega (arith, pow-suc 256 n)))

pub byte_at-lt : (xs : List ℕ) (i : ℕ) → AllBytes xs → byte_at xs i < 256
byte_at-lt [] i h = omega arith
byte_at-lt (x ∷ xs) zero h = h.0
byte_at-lt (x ∷ xs) (suc i) h = byte_at-lt xs i h.1

-- `u16::from_le_bytes([bytes[offset], bytes[offset + 1]])`.
abbrev pub u16_at : List ℕ → ℕ → ℕ
u16_at xs offset = byte_at xs offset + 256 * byte_at xs (offset + 1)

pub u16_at-lt : (xs : List ℕ) (offset : ℕ) → AllBytes xs → u16_at xs offset < 65536
u16_at-lt xs offset h = omega (arith, byte_at-lt xs offset h, byte_at-lt xs (offset + 1) h)

-- A 16-bit word is read back where it was written.
pub u16_at-copy_at :
    (xs : List ℕ) (offset v : ℕ)
    → offset + 2 ≤ length xs
    → v < 65536
    → u16_at (copy_at xs offset (to_le_bytes 2 v)) offset ≡ v
u16_at-copy_at xs offset v fits h =
    let zero_plus : offset + 0 ≡ offset = omega arith in
    let low : byte_at (copy_at xs offset (to_le_bytes 2 v)) offset ≡ v % 256 =
      rw zero_plus at (get_or-copy_at_plus xs offset (to_le_bytes 2 v) 0 0 fits (omega arith)) in
    let high : byte_at (copy_at xs offset (to_le_bytes 2 v)) (offset + 1) ≡ v / 256 % 256 =
      get_or-copy_at_plus xs offset (to_le_bytes 2 v) 1 0 fits (omega arith) in
    omega (arith, low, high)
