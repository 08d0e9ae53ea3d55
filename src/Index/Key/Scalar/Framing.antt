-- ===== src/Index/Key/Scalar/Framing.antt =====
-- The check of prefixes and the encoder agree: a component is recognised whole with anything behind it,
-- and each part of it as a part.
use jet3_rs.Common.{
  ℕ, suc, ◌≤◌, ◌≡◌, refl, sym, ap, ◌∙◌, arith, some, List, [], ◌∷◌, length, length-map, inl, inr,
  bit_xor,
}
use jet3_rs.Row.Value.{RowValue, binary, guid}
use jet3_rs.Index.Key.{IndexDirection, ascending, descending, directed}
use jet3_rs.Index.Key.Binary.{mask_of}
use jet3_rs.Index.Key.Binary
use jet3_rs.Index.Key.Binary.Frame.{masked}
use jet3_rs.Index.Key.Binary.Prefix.{
  prefix-encode, prefix-cut_encode, length-encode, component-frame,
}
use jet3_rs.Index.Key.Scalar.{
  ScalarKeyType, boolean_key, guid_key, binary_key, text_key, TextKeys, is_null, maximum_length,
  component, encode, present_prefix,
}
use jet3_rs.Index.Key.Scalar.Shapes.{
  Source, of_binary, of_guid, of_text, of_component, encode-Source, FixedKind, component-shape,
}
use jet3_rs.Index.Key.Scalar.Guids.{guid_bytes}
use jet3_rs.Row.Value.{IsRowValue}
use jet3_rs.Index.Key.Scalar.Recognised.{
  IsPlain, IsFramed, Recognised, absent-IsFramed, present-IsFramed, fixed-Recognised,
  boolean-Recognised, guid-Recognised,
}

directed-cons :
    (direction : IndexDirection) (b : ℕ) (r : List ℕ)
    → b ≡ 0x7f
    → directed direction (b ∷ r) ≡ masked direction 0x7f ∷ directed direction r
directed-cons ascending b r e = rw e
directed-cons descending b r e = rw e

pub length-directed :
    (direction : IndexDirection) (r : List ℕ) → length (directed direction r) ≡ length r
length-directed ascending r = refl
length-directed descending r = length-map (λ b. bit_xor b 0xff) r

directed-boolean :
    (texts : TextKeys) (direction : IndexDirection) (r : List ℕ)
    → FixedKind boolean_key r
    → Recognised texts boolean_key direction (masked direction 0x7f ∷ directed direction r)
directed-boolean texts ascending r (inl e) =
    rw e (boolean-Recognised texts ascending 0 (inl refl) 0x7f)
directed-boolean texts ascending r (inr e) =
    rw e (boolean-Recognised texts ascending 0xff (inr refl) 0x7f)
directed-boolean texts descending r (inl e) =
    rw e (boolean-Recognised texts descending 0xff (inr refl) 0x80)
directed-boolean texts descending r (inr e) =
    rw e (boolean-Recognised texts descending 0 (inl refl) 0x80)

directed-Recognised :
    (texts : TextKeys) (kind : ScalarKeyType) (direction : IndexDirection) (r : List ℕ)
    → FixedKind kind r
    → suc (length r) ≡ maximum_length kind
    → Recognised texts kind direction (masked direction 0x7f ∷ directed direction r)
directed-Recognised texts boolean_key direction r fixed size =
    directed-boolean texts direction r fixed
directed-Recognised texts kind direction r fixed size =
    fixed-Recognised texts kind direction r (masked direction 0x7f ∷ directed direction r) refl
      fixed (omega (arith, length-directed direction r))

maximum_length-pos : (kind : ScalarKeyType) → 1 ≤ maximum_length kind
unfolding maximum_length
maximum_length-pos (binary_key max_len) = omega arith
maximum_length-pos (text_key max_len order) = omega arith
maximum_length-pos kind = omega arith

maximum_length-fixed :
    (kind : ScalarKeyType) (r : List ℕ) → FixedKind kind r → 2 ≤ maximum_length kind
unfolding maximum_length
maximum_length-fixed guid_key r fixed = absurd fixed
maximum_length-fixed (binary_key max_len) r fixed = absurd fixed
maximum_length-fixed (text_key max_len order) r fixed = absurd fixed
maximum_length-fixed kind r fixed = omega arith

directed-absent :
    (direction : IndexDirection) → directed direction (0 ∷ []) ≡ mask_of direction ∷ []
directed-absent ascending = refl
directed-absent descending = refl

component-IsFramed :
    (texts : TextKeys) (kind : ScalarKeyType) (direction : IndexDirection) (value : RowValue)
    (raw key : List ℕ)
    → component kind value ≡ some raw
    → directed direction raw ≡ key
    → IsFramed texts direction kind value key
component-IsFramed texts kind direction value raw key built same =
    elim (component-shape kind value built) [
      | inl (e, n, b) ↦
          let key_lem : key ≡ mask_of direction ∷ [] =
            sym same ∙ ap (directed direction) e ∙ directed-absent direction in
          rw key_lem (absent-IsFramed texts kind direction value (maximum_length-pos kind) n b)
      | inr (r, e, size, n, fixed) ↦
          let key_lem : key ≡ masked direction 0x7f ∷ directed direction r =
            sym same ∙ ap (directed direction) e ∙ directed-cons direction 0x7f r refl in
          let length_lem = length-directed direction r in
          present-IsFramed texts kind direction value (directed direction r) key key_lem n
            (omega (arith, maximum_length-fixed kind r fixed)) (rw key_lem (omega arith))
            (rw key_lem (directed-Recognised texts kind direction r fixed size))
    ]

binary-IsFramed :
    (texts : TextKeys) (direction : IndexDirection) (max_len : ℕ) (bytes key : List ℕ)
    → Binary.encode bytes max_len direction ≡ some key
    → IsFramed texts direction (binary_key max_len) (binary bytes) key
unfolding is_null maximum_length present_prefix
binary-IsFramed texts direction max_len [] key e =
    let key_lem : key ≡ mask_of direction ∷ [] = (unfold Binary.encode in ground arith) in
    rw key_lem
      (absent-IsFramed texts (binary_key max_len) direction (binary []) (omega arith) refl refl)
binary-IsFramed texts direction max_len (b ∷ bs) key e =
    let (fits, framed) = component-frame (b ∷ bs) max_len direction (omega arith) e in
    let (at_least, bound) = length-encode (b ∷ bs) max_len direction (omega arith) e in
    present-IsFramed texts (binary_key max_len) direction (binary (b ∷ bs)) _ key (sym framed) refl
      (omega (arith, ap length framed)) bound
      (
        λ rest. prefix-encode (b ∷ bs) rest max_len direction (omega arith) e,
        λ k h. prefix-cut_encode (b ∷ bs) k max_len direction (omega arith) e h,
      )

guid-IsFramed :
    (texts : TextKeys) (direction : IndexDirection) (bytes key : List ℕ)
    → length bytes ≡ 16
    → Binary.encode bytes 16 direction ≡ some key
    → IsFramed texts direction guid_key (guid bytes) key
unfolding is_null maximum_length
guid-IsFramed texts direction bytes key sixteen e =
    let (fits, framed) = component-frame bytes 16 direction (omega arith) e in
    let (size, ninth, last) = guid_bytes direction bytes sixteen e in
    present-IsFramed texts guid_key direction (guid bytes) _ key (sym framed) refl
      (omega (arith, ap length framed)) (omega arith)
      (guid-Recognised texts direction bytes key sixteen e)

from_Source :
    (texts : TextKeys) (kind : ScalarKeyType) (value : RowValue) (direction : IndexDirection)
    (key : List ℕ)
    → IsPlain kind value
    → IsRowValue value
    → Source texts direction key kind value
    → IsFramed texts direction kind value key
from_Source texts kind value direction key plain typed (of_binary max_len bytes e) =
    binary-IsFramed texts direction max_len bytes key e
from_Source texts kind value direction key plain typed (of_guid bytes e) =
    guid-IsFramed texts direction bytes key typed.0 e
from_Source texts kind value direction key plain typed (of_text max_len order bytes e) =
    absurd plain
from_Source texts kind value direction key plain typed (of_component raw built same) =
    component-IsFramed texts kind direction value raw key built same

-- A component of any value but a text that is encoded is recognised whole with anything behind it, each proper part of it is
-- recognised as a part, its length is at most `maximum_length`, and it is one byte exactly if the value
-- is null for its kind.
pub encode-IsFramed :
    (texts : TextKeys) (kind : ScalarKeyType) (value : RowValue) (direction : IndexDirection)
    (key : List ℕ)
    → IsPlain kind value
    → IsRowValue value
    → encode texts kind value direction ≡ some key
    → IsFramed texts direction kind value key
encode-IsFramed texts kind value direction key plain typed e =
    from_Source texts kind value direction key plain typed (encode-Source kind value e)
