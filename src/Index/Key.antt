-- ===== src/Index/Key.antt =====
-- crates/jet3/src/index/key: the directions of an index, the prefixes of keys, and the key component of
-- a Long value (scalar.rs).
pub mod Long
pub mod Binary
pub mod Scalar
pub mod Text
pub mod LocaleText
use jet3_rs.Common.{ℕ, ◌^◌, List, [], ◌∷◌, map, bit_xor}
use jet3_rs.Common.Int.{ℤ, to_word}
use jet3_rs.Index.Order.{to_be_bytes}

-- Of the crate's public types.
pub data IndexDirection : Type 0 where
  ascending descending : IndexDirection

-- What a key starts with: a whole component, or a part of one whose bytes are at most `maximum`.
pub data KeyPrefix : Type 0 where
  complete : (length : ℕ) → KeyPrefix
  partial : (maximum : ℕ) → KeyPrefix

-- `key[0] ^= 0x80` on the bytes behind the marker.
abbrev pub flip_sign : List ℕ → List ℕ
flip_sign [] = []
flip_sign (b ∷ bs) = bit_xor b 0x80 ∷ bs

abbrev pub directed : IndexDirection → List ℕ → List ℕ
directed ascending key = key
directed descending key = map (λ b. bit_xor b 0xff) key

unfoldable pub encode_long : ℤ → IndexDirection → List ℕ
encode_long value direction =
    directed direction (0x7f ∷ flip_sign (to_be_bytes 4 (to_word (2 ^ 31) value)))
