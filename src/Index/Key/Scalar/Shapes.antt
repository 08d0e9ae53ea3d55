-- ===== src/Index/Key/Scalar/Shapes.antt =====
-- The shapes of components: of a null, of a present value of fixed length, and those that other encoders
-- give.
use jet3_rs.Common.{
  ℕ, suc, ◌^◌, ◌≡◌, refl, arith, true, false, Bool-cases, Option, none, some, List, [], ◌∷◌, length,
  inl, inr, ◌⊎◌,
}
use jet3_rs.Common.Int.{to_word}
use jet3_rs.Row.Value.{
  RowValue, null, boolean, byte, integer, long, currency, single, double, date_time, binary, text,
  guid,
}
use jet3_rs.Index.Order.{to_be_bytes}
use jet3_rs.Index.Key.{IndexDirection, flip_sign, directed}
use jet3_rs.Index.Key.Binary
use jet3_rs.Index.Key.Scalar.{
  ScalarKeyType, boolean_key, byte_key, integer_key, long_key, currency_key, single_key, double_key,
  date_time_key, guid_key, binary_key, text_key, TextKeys, is_null, maximum_length, is_finite,
  ordered_bits, float_component, component, turned, encode, is_boolean_key,
}

-- Where a component comes from.
pub data Source (texts : TextKeys) (direction : IndexDirection) (key : List ℕ)
    : ScalarKeyType → RowValue → Type 0 where
  of_binary :
      (max_len : ℕ) (bytes : List ℕ)
      → Binary.encode bytes max_len direction ≡ some key
      → Source texts direction key (binary_key max_len) (binary bytes)
  of_guid :
      (bytes : List ℕ)
      → Binary.encode bytes 16 direction ≡ some key
      → Source texts direction key guid_key (guid bytes)
  of_text :
      (max_len : ℕ) (order : _) (bytes : List ℕ)
      → texts.encode bytes max_len direction order ≡ some key
      → Source texts direction key (text_key max_len order) (text bytes)
  of_component :
      {kind : ScalarKeyType} {value : RowValue} (raw : List ℕ)
      → component kind value ≡ some raw
      → directed direction raw ≡ key
      → Source texts direction key kind value

turned-eq_some :
    (direction : IndexDirection) (o : Option (List ℕ)) {key : List ℕ}
    → turned direction o ≡ some key
    → (raw : List ℕ) × (o ≡ some raw) × (directed direction raw ≡ key)
turned-eq_some direction none e = cc
turned-eq_some direction (some raw) e = (raw, refl, cc)

from_component :
    {texts : TextKeys} {direction : IndexDirection} {key : List ℕ} (kind : ScalarKeyType)
    (value : RowValue)
    → turned direction (component kind value) ≡ some key
    → Source texts direction key kind value
from_component {texts} {direction} kind value e =
    let (raw, built, same) = turned-eq_some direction (component kind value) e in
    of_component raw built same

pub encode-Source :
    {texts : TextKeys} {direction : IndexDirection} {key : List ℕ} (kind : ScalarKeyType)
    (value : RowValue)
    → encode texts kind value direction ≡ some key
    → Source texts direction key kind value
unfolding encode
encode-Source (binary_key max_len) (binary bytes) e = of_binary max_len bytes e
encode-Source (text_key max_len order) (text bytes) e = of_text max_len order bytes e
encode-Source guid_key (guid bytes) e = of_guid bytes e
encode-Source kind value e = from_component kind value e

-- The kinds whose present values have components of one length, and the components of Booleans.
abbrev pub FixedKind : ScalarKeyType → List ℕ → Type 0
FixedKind boolean_key r = (r ≡ 0 ∷ []) ⊎ (r ≡ 0xff ∷ [])
FixedKind guid_key r = ⊥
FixedKind (binary_key max_len) r = ⊥
FixedKind (text_key max_len order) r = ⊥
FixedKind kind r = Unit {0}

abbrev pub Absent : ScalarKeyType → RowValue → List ℕ → Type 0
Absent kind value raw = (raw ≡ 0 ∷ []) × (is_null kind value ≡ true) × (is_boolean_key kind ≡ false)

abbrev pub Present : ScalarKeyType → RowValue → List ℕ → Type 0
Present kind value raw =
    (r : List ℕ) × (raw ≡ 0x7f ∷ r)
    × (suc (length r) ≡ maximum_length kind)
    × (is_null kind value ≡ false)
    × FixedKind kind r

pub float_shape :
    (size half unit bits : ℕ) {raw : List ℕ}
    → float_component size half unit bits ≡ some raw
    → raw ≡ 0x7f ∷ to_be_bytes size (ordered_bits half bits)
unfolding float_component
float_shape size half unit bits e = elim (Bool-cases (is_finite half unit bits)) [
  | inl finite ↦ ground arith
  | inr other ↦ ground arith
]

pub component-shape :
    (kind : ScalarKeyType) (value : RowValue) {raw : List ℕ}
    → component kind value ≡ some raw
    → Absent kind value raw ⊎ Present kind value raw
unfolding component is_null maximum_length
component-shape boolean_key null e = inr (0xff ∷ [], cc, refl, refl, inr refl)
component-shape boolean_key (boolean true) e = inr (0 ∷ [], cc, refl, refl, inl refl)
component-shape boolean_key (boolean false) e = inr (0xff ∷ [], cc, refl, refl, inr refl)
component-shape byte_key (byte v) e = inr (v ∷ [], cc, refl, refl, tt)
component-shape integer_key (integer v) e =
    inr (flip_sign (to_be_bytes 2 (to_word (2 ^ 15) v)), cc, refl, refl, tt)
component-shape long_key (long v) e =
    inr (flip_sign (to_be_bytes 4 (to_word (2 ^ 31) v)), cc, refl, refl, tt)
component-shape currency_key (currency v) e =
    inr (flip_sign (to_be_bytes 8 (to_word (2 ^ 63) v)), cc, refl, refl, tt)
component-shape single_key (single v) e =
    inr
      (to_be_bytes 4 (ordered_bits (2 ^ 31) v), float_shape 4 (2 ^ 31) (2 ^ 23) v e, refl, refl, tt)
component-shape double_key (double v) e =
    inr
      (to_be_bytes 8 (ordered_bits (2 ^ 63) v), float_shape 8 (2 ^ 63) (2 ^ 52) v e, refl, refl, tt)
component-shape date_time_key (date_time v) e =
    inr
      (to_be_bytes 8 (ordered_bits (2 ^ 63) v), float_shape 8 (2 ^ 63) (2 ^ 52) v e, refl, refl, tt)
component-shape kind null e = inl (cc, refl, refl)
component-shape kind value e = cc
