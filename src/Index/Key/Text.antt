-- ===== src/Index/Key/Text.antt =====
-- crates/jet3/src/index/key/text.rs: the key components of texts in the General sort order. The loops that
-- text.rs and locale_text.rs both have stand in Index/Key/Text/Layers, over what they differ in.
pub mod Weights
pub mod Layers
use jet3_rs.Common.{
  ℕ, leb, ltb, ◌==◌, if◌then◌else◌, Bool, true, false, ◌&&◌, ◌||◌, Option, none, some, List, [],
  ◌∷◌, length, ◌*◌,
}
use jet3_rs.Common.Bytes.{byte_at}
use jet3_rs.Index.Key.{IndexDirection, KeyPrefix}
use jet3_rs.Index.Key.Text.Weights.{primary_weights}
use jet3_rs.Index.Key.Text.Layers.{
  Rules, Weighed, no_weights, add_weights, trim_end, text_component, text_prefix,
}

-- `matches!(n, low..=high)`.
abbrev between : (low high : ℕ) → ℕ → Bool
between low high n = leb low n && leb n high

abbrev one_of : List ℕ → ℕ → Bool
one_of [] n = false
one_of (x ∷ xs) n = (n == x) || one_of xs n

unfoldable pub accented_primary : ℕ → Bool
accented_primary weight =
    one_of (0x60 ∷ 0x62 ∷ 0x66 ∷ 0x6a ∷ 0x70 ∷ 0x72 ∷ 0x76 ∷ 0x78 ∷ 0x7d ∷ []) weight

unfoldable pub accent : ℕ → Option ℕ
accent byte =
    if one_of (0xc0 ∷ 0xc8 ∷ 0xcc ∷ 0xd2 ∷ 0xd9 ∷ 0xe0 ∷ 0xe8 ∷ 0xec ∷ 0xf2 ∷ 0xf9 ∷ []) byte
    then some 3
    else if one_of
        (0xc1 ∷ 0xc9 ∷ 0xcd ∷ 0xd3 ∷ 0xda ∷ 0xdd ∷ 0xe1 ∷ 0xe9 ∷ 0xed ∷ 0xf3 ∷ 0xfa ∷ 0xfd ∷ [])
        byte
    then some 4
    else if one_of (0xc2 ∷ 0xca ∷ 0xce ∷ 0xd4 ∷ 0xdb ∷ 0xe2 ∷ 0xea ∷ 0xee ∷ 0xf4 ∷ 0xfb ∷ []) byte
    then some 5
    else if one_of
        (0x9f ∷ 0xc4 ∷ 0xcb ∷ 0xcf ∷ 0xd6 ∷ 0xdc ∷ 0xe4 ∷ 0xeb ∷ 0xef ∷ 0xf6 ∷ 0xfc ∷ 0xff ∷ [])
        byte
    then some 6
    else if one_of (0xc3 ∷ 0xd1 ∷ 0xd5 ∷ 0xe3 ∷ 0xf1 ∷ 0xf5 ∷ []) byte
    then some 7
    else if one_of (0xc5 ∷ 0xe5 ∷ []) byte
    then some 8
    else if one_of (0xc7 ∷ 0xe7 ∷ []) byte
    then some 9
    else if one_of (0x8a ∷ 0x9a ∷ []) byte
    then some 10
    else none

unfoldable pub allowed_secondary : (primary secondary : ℕ) → Bool
allowed_secondary primary secondary =
    (secondary == 2)
    || ((primary == 0x60) && between 3 8 secondary)
    || ((primary == 0x62) && (secondary == 9))
    || (one_of (0x66 ∷ 0x6a ∷ 0x78 ∷ []) primary && between 3 6 secondary)
    || ((primary == 0x70) && (secondary == 7))
    || ((primary == 0x72) && between 3 7 secondary)
    || ((primary == 0x76) && (secondary == 10))
    || ((primary == 0x7d) && ((secondary == 4) || (secondary == 6)))

-- The weights that `prefix` takes for primary ones.
unfoldable pub valid_primary : ℕ → Bool
valid_primary byte =
    between 0x10 0x62 byte
    || between 0x64 0x6d byte
    || between 0x6f 0x70 byte
    || between 0x72 0x78 byte
    || between 0x7a 0x7f byte
    || (byte == 0x81)

-- The pairs of weights that one byte can stand for.
unfoldable pub expands : ℕ → ℕ → Bool
expands first second =
    (one_of (0x60 ∷ 0x72 ∷ []) first && (second == 0x66)) || ((first == 0x76) && (second == 0x76))

abbrev pub rules : Rules
rules = record {
  valid = valid_primary;
  accented = accented_primary;
  allowed = allowed_secondary;
  cost = λ weight. 1;
  expansion = expands;
}

abbrev neutral : Option ℕ → ℕ
neutral none = 2
neutral (some nibble) = nibble

-- The loop over the bytes of the value.
unfoldable pub weigh : List ℕ → Option Weighed
unfolding accented_primary accent
weigh [] = some no_weights
weigh (byte ∷ bytes) =
    let primary = byte_at primary_weights byte in
    if primary == 0 then none else elim (weigh bytes) [
      | none ↦ none
      | some rest ↦ some (add_weights accented_primary primary (neutral (accent byte)) rest)
    ]

unfoldable pub encode : List ℕ → (maximum : ℕ) → IndexDirection → Option (List ℕ)
unfolding weigh
encode value maximum direction =
    if ltb maximum (length value) then none else elim (weigh (trim_end 0x20 value)) [
      | none ↦ none
      | some weighed ↦ some (text_component direction weighed)
    ]

unfoldable pub prefix : List ℕ → (maximum : ℕ) → IndexDirection → Option KeyPrefix
prefix key maximum direction = text_prefix rules key maximum direction
