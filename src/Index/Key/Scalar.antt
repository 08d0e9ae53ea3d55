-- ===== src/Index/Key/Scalar.antt =====
-- crates/jet3/src/index/key/scalar.rs: the key components of the scalar values and the check of what a
-- key starts with. Text components are those of locale_text.rs: `TextKeys` is the two operations that are
-- called, which `locale_texts` of Index/Key/LocaleText implements. Nothing is assumed about them.
pub mod Shapes
pub mod Guids
pub mod Recognised
pub mod Framing
pub mod Numbers
pub mod Rank
pub mod Order
use jet3_rs.Common.{
  ℕ, suc, ◌+◌, ◌-◌, ◌*◌, ◌/◌, ◌%◌, ◌^◌, ◌≤◌, ◌<◌, ltb, leb, ◌==◌, if◌then◌else◌, ◌≡◌, Bool, true,
  false, not, ◌||◌, ◌&&◌, Option, none, some, List, [], ◌∷◌, ◌++◌, map, length, take, drop, bit_and,
  bit_xor,
}
use jet3_rs.Common.Bytes.{byte_at}
use jet3_rs.Common.Int.{ℤ, to_word}
use jet3_rs.Row.Value.{
  RowValue, null, auto_increment, boolean, byte, integer, long, currency, single, double, date_time,
  binary, text, guid, memo, long_binary, long_value,
}
use jet3_rs.Index.Order.{to_be_bytes}
use jet3_rs.Index.Key.{
  IndexDirection, ascending, descending, KeyPrefix, complete, partial, flip_sign, directed,
  encode_long,
}
use jet3_rs.Index.Key.Binary.{mask_of, framed_maximum}
use jet3_rs.Index.Key.Binary

-- Of the crate's public types.
pub data SortOrder : Type 0 where
  general nordic spanish dutch cyrillic greek : SortOrder
  other : (raw : List ℕ) → SortOrder

pub data ScalarKeyType : Type 0 where
  boolean_key byte_key integer_key long_key currency_key : ScalarKeyType
  single_key double_key date_time_key guid_key : ScalarKeyType
  binary_key : (max_len : ℕ) → ScalarKeyType
  text_key : (max_len : ℕ) → SortOrder → ScalarKeyType

-- `locale_text::encode` and `locale_text::prefix`.
pub record TextKeys : Type 0 where
  pub encode : List ℕ → (max_len : ℕ) → IndexDirection → SortOrder → Option (List ℕ)
  pub prefix : List ℕ → (max_len : ℕ) → IndexDirection → SortOrder → Option KeyPrefix

unfoldable pub is_null : ScalarKeyType → RowValue → Bool
is_null boolean_key value = false
is_null (binary_key max_len) null = true
is_null (binary_key max_len) (binary []) = true
is_null kind null = true
is_null kind value = false

unfoldable pub maximum_length : ScalarKeyType → ℕ
maximum_length boolean_key = 2
maximum_length byte_key = 2
maximum_length integer_key = 3
maximum_length long_key = 5
maximum_length single_key = 5
maximum_length currency_key = 9
maximum_length double_key = 9
maximum_length date_time_key = 9
maximum_length (binary_key max_len) = framed_maximum max_len
maximum_length (text_key max_len order) = 3 * max_len + 2
maximum_length guid_key = 19

-- `is_finite` and the ordered bits of `f32` (a half of 2 ^ 31 and a unit of 2 ^ 23) and `f64`.
abbrev pub is_finite : (half unit bits : ℕ) → Bool
is_finite half unit bits = ltb (bits % half) (half - unit)

unfoldable pub ordered_bits : (half bits : ℕ) → ℕ
ordered_bits half bits = if leb half bits then half + half - 1 - bits else bit_xor bits half

-- A floating-point component in ascending order, where the value is finite.
unfoldable pub float_component : (size half unit bits : ℕ) → Option (List ℕ)
unfolding ordered_bits
float_component size half unit bits =
    if is_finite half unit bits
    then some (0x7f ∷ to_be_bytes size (ordered_bits half bits))
    else none

-- The components that are built in ascending order: the `match` up to the turn of the bytes.
unfoldable pub component : ScalarKeyType → RowValue → Option (List ℕ)
unfolding float_component encode_long
component boolean_key null = some (0x7f ∷ 0xff ∷ [])
component kind null = some (0 ∷ [])
component boolean_key (boolean value) = some (0x7f ∷ (if value then 0 else 0xff) ∷ [])
component byte_key (byte value) = some (0x7f ∷ value ∷ [])
component integer_key (integer value) =
    some (0x7f ∷ flip_sign (to_be_bytes 2 (to_word (2 ^ 15) value)))
component long_key (long value) = some (encode_long value ascending)
component currency_key (currency scaled) =
    some (0x7f ∷ flip_sign (to_be_bytes 8 (to_word (2 ^ 63) scaled)))
component single_key (single bits) = float_component 4 (2 ^ 31) (2 ^ 23) bits
component double_key (double bits) = float_component 8 (2 ^ 63) (2 ^ 52) bits
component date_time_key (date_time bits) = float_component 8 (2 ^ 63) (2 ^ 52) bits
component kind value = none

-- The last lines of `encode`: a descending component has all its bytes turned.
abbrev pub turned : IndexDirection → Option (List ℕ) → Option (List ℕ)
turned direction none = none
turned direction (some key) = some (directed direction key)

-- `encode`, of which the first three cases return early.
unfoldable pub encode : TextKeys → ScalarKeyType → RowValue → IndexDirection → Option (List ℕ)
unfolding component
encode texts (binary_key max_len) (binary value) direction = Binary.encode value max_len direction
encode texts (text_key max_len order) (text value) direction =
    texts.encode value max_len direction order
encode texts guid_key (guid value) direction = Binary.encode value 16 direction
encode texts kind value direction = turned direction (component kind value)

-- Fixed-length components: all of the length, or a part.
abbrev pub fixed_prefix : ℕ → List ℕ → Option KeyPrefix
fixed_prefix maximum key =
    if ltb (length key) maximum then some (partial maximum) else some (complete maximum)

-- `key.get(i).is_some_and(|byte| *byte != expected)`.
abbrev pub differs_at : List ℕ → ℕ → ℕ → Bool
differs_at key i expected = ltb i (length key) && not (byte_at key i == expected)

-- The prefix of a component behind the marker of a present value.
unfoldable pub present_prefix :
    TextKeys → ScalarKeyType → List ℕ → IndexDirection → Option KeyPrefix
present_prefix texts (binary_key max_len) key direction = Binary.prefix key max_len direction
present_prefix texts (text_key max_len order) key direction =
    texts.prefix key max_len direction order
present_prefix texts guid_key key direction =
    if differs_at key 9 9 || differs_at key 18 (bit_xor 8 (mask_of direction))
    then none
    else fixed_prefix 19 key
present_prefix texts boolean_key key direction =
    if ltb 1 (length key) && not (byte_at key 1 == 0 || byte_at key 1 == 0xff)
    then none
    else fixed_prefix 2 key
present_prefix texts kind key direction = fixed_prefix (maximum_length kind) key

abbrev pub is_boolean_key : ScalarKeyType → Bool
is_boolean_key boolean_key = true
is_boolean_key kind = false

unfoldable pub prefix : TextKeys → ScalarKeyType → List ℕ → IndexDirection → Option KeyPrefix
unfolding present_prefix maximum_length
prefix texts kind [] direction = some (partial (maximum_length kind))
prefix texts kind (first ∷ rest) direction =
    let marker = bit_xor first (mask_of direction) in
    if marker == 0 && not (is_boolean_key kind)
    then some (complete 1)
    else if marker == 0x7f
    then present_prefix texts kind (first ∷ rest) direction
    else none
