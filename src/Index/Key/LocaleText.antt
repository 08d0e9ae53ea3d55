-- ===== src/Index/Key/LocaleText.antt =====
-- crates/jet3/src/index/key/locale_text.rs: the key components of texts in all sort orders.
pub mod Tables
pub mod Nordic
pub mod Spanish
pub mod Dutch
pub mod Cyrillic
pub mod Greek
mod Examples
use jet3_rs.Common.{
  ℕ, ◌+◌, ◌^◌, ltb, leb, ◌==◌, if◌then◌else◌, Bool, true, false, not, ◌&&◌, ◌||◌, Option, none,
  some, List, [], ◌∷◌, length, bit_and,
}
use jet3_rs.Common.Bytes.{byte_at}
use jet3_rs.Format.Text.{TextCodePage, windows1251, windows1252, windows1253, mapped_character}
use jet3_rs.Index.Key.{IndexDirection, KeyPrefix}
use jet3_rs.Index.Key.Scalar.{
  SortOrder, general, nordic, spanish, dutch, cyrillic, greek, other, TextKeys,
}
use jet3_rs.Index.Key.Text
use jet3_rs.Index.Key.Text.Layers.{
  Rules, Weighed, no_weights, add_weights, trim_end, text_component, text_prefix,
}
use jet3_rs.Index.Key.LocaleText.Tables.{Weights}
use jet3_rs.Index.Key.LocaleText.Nordic.{nordic_weights}
use jet3_rs.Index.Key.LocaleText.Spanish.{spanish_weights}
use jet3_rs.Index.Key.LocaleText.Dutch.{dutch_weights}
use jet3_rs.Index.Key.LocaleText.Cyrillic.{cyrillic_weights}
use jet3_rs.Index.Key.LocaleText.Greek.{greek_weights}

unfoldable pub weights : SortOrder → Option Weights
weights nordic = some nordic_weights
weights spanish = some spanish_weights
weights dutch = some dutch_weights
weights cyrillic = some cyrillic_weights
weights greek = some greek_weights
weights order = none

-- database_header.rs: the code page of a sort order.
unfoldable pub code_page : SortOrder → Option TextCodePage
code_page cyrillic = some windows1251
code_page greek = some windows1253
code_page (other raw) = none
code_page order = some windows1252

abbrev is_spanish : SortOrder → Bool
is_spanish spanish = true
is_spanish order = false

abbrev is_general : SortOrder → Bool
is_general general = true
is_general order = false

abbrev to_ascii_lowercase : ℕ → ℕ
to_ascii_lowercase byte = if leb 0x41 byte && leb byte 0x5a then byte + 0x20 else byte

-- `pair.eq_ignore_ascii_case` with `ch` and `ll`.
unfoldable pub contraction : SortOrder → (first second : ℕ) → Option ℕ
contraction order first second =
    let a = to_ascii_lowercase first in
    let b = to_ascii_lowercase second in
    if not (is_spanish order)
    then none
    else if (a == 0x63) && (b == 0x68)
    then some 0x63
    else if (a == 0x6c) && (b == 0x6c)
    then some 0x6e
    else none

abbrev is_accented : Weights → ℕ → Bool
is_accented w weight = not (byte_at w.accents weight == 0)

abbrev weigh_byte : Weights → ℕ → Weighed → Weighed
weigh_byte w byte rest =
    add_weights (is_accented w) (byte_at w.primary byte) (byte_at w.secondary byte) rest

-- The loop over the bytes of the value.
unfoldable pub weigh : SortOrder → Weights → List ℕ → Weighed
unfolding contraction
weigh order w [] = no_weights
weigh order w (byte ∷ []) = weigh_byte w byte no_weights
weigh order w (byte ∷ next ∷ bytes) = elim (contraction order byte next) [
  | none ↦ weigh_byte w byte (weigh order w (next ∷ bytes))
  | some primary ↦ add_weights (is_accented w) primary 2 (weigh order w bytes)
]

unfoldable pub encode_bytes : SortOrder → Weights → List ℕ → IndexDirection → List ℕ
unfolding weigh
encode_bytes order w value direction = text_component direction (weigh order w value)

abbrev is_none {ℓ} : {A : Type ℓ} → Option A → Bool
is_none none = true
is_none (some a) = false

-- `value.iter().any(..)` of the bytes without a character.
abbrev any_unmapped : TextCodePage → List ℕ → Bool
any_unmapped page [] = false
any_unmapped page (byte ∷ bytes) = is_none (mapped_character page byte) || any_unmapped page bytes

abbrev encode_locale :
    List ℕ → IndexDirection → SortOrder → Option Weights → Option TextCodePage → Option (List ℕ)
encode_locale value direction order none page = none
encode_locale value direction order (some w) none = none
encode_locale value direction order (some w) (some page) =
    if any_unmapped page value
    then none
    else some (encode_bytes order w (trim_end 0x20 value) direction)

unfoldable pub encode : List ℕ → (maximum : ℕ) → IndexDirection → SortOrder → Option (List ℕ)
unfolding weights code_page
encode value maximum direction order =
    if is_general order
    then Text.encode value maximum direction
    else if ltb maximum (length value)
    then none
    else encode_locale value direction order (weights order) (code_page order)

abbrev has_pair : List (ℕ × ℕ) → (first second : ℕ) → Bool
has_pair [] first second = false
has_pair ((a, b) ∷ pairs) first second =
    ((a == first) && (b == second)) || has_pair pairs first second

-- What `prefix` and `source_bytes` look up.
unfoldable pub rules_of : Weights → Rules
rules_of w = record {
  valid = λ weight. not (byte_at w.source_cost weight == 0);
  accented = is_accented w;
  allowed = λ weight nibble. not (bit_and (byte_at w.accents weight) (2 ^ nibble) == 0);
  cost = λ weight. byte_at w.source_cost weight;
  expansion = has_pair w.expansions;
}

abbrev prefix_locale : List ℕ → ℕ → IndexDirection → Option Weights → Option KeyPrefix
prefix_locale key maximum direction none = none
prefix_locale key maximum direction (some w) = text_prefix (rules_of w) key maximum direction

unfoldable pub prefix : List ℕ → (maximum : ℕ) → IndexDirection → SortOrder → Option KeyPrefix
unfolding weights
prefix key maximum direction order =
    if is_general order
    then Text.prefix key maximum direction
    else prefix_locale key maximum direction (weights order)

-- The two operations that the scalar keys call.
abbrev pub locale_texts : TextKeys
locale_texts = record { encode = encode; prefix = prefix }
