-- ===== src/Index/Key/Scalar/Order.antt =====
-- The components of the values of a kind are ordered as their ranks.
use jet3_rs.Common.{
  ℕ, ◌+◌, ◌^◌, ◌<◌, ◌≡◌, refl, sym, ap, ◌∙◌, arith, true, false, some, List, [], ◌∷◌, length, ◌⊎◌,
  ◌↔◌, inl, inr,
}
use jet3_rs.Common.Bytes.{AllBytes}
use jet3_rs.Common.Int.{ℤ, pos, negsuc}
use jet3_rs.Row.Value.{
  RowValue, null, boolean, byte, integer, long, currency, single, double, date_time, binary,
  IsRowValue,
}
use jet3_rs.Index.Order.{Before, Before-irrefl, to_be_bytes, complement-order}
use jet3_rs.Index.Key.{IndexDirection, ascending, descending, directed, encode_long}
use jet3_rs.Index.Key.Binary.{mask_of}
use jet3_rs.Index.Key.Binary
use jet3_rs.Index.Key.Binary.Frame.{masked, frame}
use jet3_rs.Index.Key.Binary.Masked.{InOrder}
use jet3_rs.Index.Key.Binary.Prefix.{component-frame}
use jet3_rs.Index.Key.Binary.Order.{marked-order}
use jet3_rs.Index.Key.Scalar.{
  ScalarKeyType, TextKeys, boolean_key, byte_key, integer_key, long_key, currency_key, single_key,
  double_key, date_time_key, guid_key, binary_key, text_key, float_component, component, encode,
}
use jet3_rs.Index.Key.Scalar.Shapes.{
  Source, of_binary, of_guid, of_text, of_component, encode-Source, float_shape,
}
use jet3_rs.Index.Key.Scalar.Rank.{
  Rank, absent, number, bytes, float_rank, rank, RankInOrder, FitsNumber, ordered_rank,
  number_bytes, number_bytes-order, number_bytes-AllBytes, length-number_bytes, ordered_bits-rank,
  float_rank-FitsSigned,
}

-- The kinds other than Text, whose components come from elsewhere.
abbrev pub NotText : ScalarKeyType → Type 0
NotText (text_key max_len order) = ⊥
NotText kind = Unit {0}

abbrev HasBytes : ScalarKeyType → Type 0
HasBytes (binary_key max_len) = Unit {0}
HasBytes guid_key = Unit {0}
HasBytes kind = ⊥

-- The ranks that the values of a kind have.
abbrev FitsRank : ScalarKeyType → Rank → Type 0
FitsRank kind absent = Unit {0}
FitsRank kind (number z) = FitsNumber kind z
FitsRank kind (bytes xs) = HasBytes kind × AllBytes xs × (0 < length xs)

-- The component of a rank.
key_of_rank : IndexDirection → ScalarKeyType → Rank → List ℕ
key_of_rank direction kind absent = mask_of direction ∷ []
key_of_rank direction kind (number z) =
    masked direction 0x7f ∷ directed direction (number_bytes kind z)
key_of_rank direction kind (bytes xs) = masked direction 0x7f ∷ frame direction (length xs) xs

-- In ascending order a component is 0, or the marker and the bytes of a number.
ComponentOf : ScalarKeyType → Rank → List ℕ → Type 0
ComponentOf kind r raw =
    ((r ≡ absent) × (raw ≡ 0 ∷ []))
    ⊎ ((z : ℤ) × (r ≡ number z) × FitsNumber kind z × (raw ≡ 0x7f ∷ number_bytes kind z))

float_component-rank :
    (size k unit bits : ℕ) {raw : List ℕ}
    → bits < 2 ^ k + 2 ^ k
    → float_component size (2 ^ k) unit bits ≡ some raw
    → raw ≡ 0x7f ∷ to_be_bytes size (ordered_rank (2 ^ k) (float_rank (2 ^ k) bits))
float_component-rank size k unit bits h e =
    float_shape size (2 ^ k) unit bits e
    ∙ ap (λ w. 0x7f ∷ to_be_bytes size w) (ordered_bits-rank k bits h)

component-rank :
    (kind : ScalarKeyType) (value : RowValue) {raw : List ℕ}
    → IsRowValue value
    → component kind value ≡ some raw
    → ComponentOf kind (rank kind value) raw
unfolding component number_bytes ComponentOf encode_long
component-rank boolean_key null h e = inr (pos 0, refl, omega arith, cc)
component-rank boolean_key (boolean true) h e = inr (negsuc 0, refl, omega arith, cc)
component-rank boolean_key (boolean false) h e = inr (pos 0, refl, omega arith, cc)
component-rank byte_key (byte v) h e = inr (pos v, refl, h, cc)
component-rank integer_key (integer v) h e = inr (v, refl, h, cc)
component-rank long_key (long v) h e = inr (v, refl, h, cc)
component-rank currency_key (currency v) h e = inr (v, refl, h, cc)
component-rank single_key (single v) h e = inr (
  float_rank (2 ^ 31) v,
  refl,
  float_rank-FitsSigned (2 ^ 31) v h,
  float_component-rank 4 31 (2 ^ 23) v h e,
)
component-rank double_key (double v) h e = inr (
  float_rank (2 ^ 63) v,
  refl,
  float_rank-FitsSigned (2 ^ 63) v h,
  float_component-rank 8 63 (2 ^ 52) v h e,
)
component-rank date_time_key (date_time v) h e = inr (
  float_rank (2 ^ 63) v,
  refl,
  float_rank-FitsSigned (2 ^ 63) v h,
  float_component-rank 8 63 (2 ^ 52) v h e,
)
component-rank kind null h e = inl (refl, cc)
component-rank kind value h e = cc

directed_byte :
    (direction : IndexDirection) (b : ℕ) (r : List ℕ)
    → (b ≡ 0) ⊎ (b ≡ 0x7f)
    → directed direction (b ∷ r) ≡ masked direction b ∷ directed direction r
directed_byte ascending b r (inl e) = rw e refl
directed_byte ascending b r (inr e) = rw e refl
directed_byte descending b r h = refl

directed_null : (direction : IndexDirection) → directed direction (0 ∷ []) ≡ mask_of direction ∷ []
directed_null ascending = refl
directed_null descending = refl

-- What `encode` gives is the component of the value's rank.
EncodedRank : IndexDirection → ScalarKeyType → Rank → List ℕ → Type 0
EncodedRank direction kind r key = FitsRank kind r × (key ≡ key_of_rank direction kind r)

component-EncodedRank :
    (direction : IndexDirection) (kind : ScalarKeyType) (value : RowValue) (raw key : List ℕ)
    → IsRowValue value
    → component kind value ≡ some raw
    → directed direction raw ≡ key
    → EncodedRank direction kind (rank kind value) key
unfolding EncodedRank ComponentOf key_of_rank
component-EncodedRank direction kind value raw key typed built same =
    elim (component-rank kind value typed built) [
      | inl (e, r) ↦ rw e (tt, sym same ∙ ap (directed direction) r ∙ directed_null direction)
      | inr (z, e, fits, r) ↦ rw e (
        fits,
        sym same
            ∙ ap (directed direction) r
            ∙ directed_byte direction 0x7f (number_bytes kind z) (inr refl),
      )
    ]

binary-EncodedRank :
    (direction : IndexDirection) (max_len : ℕ) (xs key : List ℕ)
    → AllBytes xs
    → Binary.encode xs max_len direction ≡ some key
    → EncodedRank direction (binary_key max_len) (rank (binary_key max_len) (binary xs)) key
unfolding EncodedRank key_of_rank
binary-EncodedRank direction max_len [] key h e = (tt, unfold Binary.encode in ground arith)
binary-EncodedRank direction max_len (x ∷ xs) key h e =
    let (fits, framed) = component-frame (x ∷ xs) max_len direction (omega arith) e in
    ((tt, h, omega arith), sym framed)

guid-EncodedRank :
    (direction : IndexDirection) (xs key : List ℕ)
    → length xs ≡ 16
    → AllBytes xs
    → Binary.encode xs 16 direction ≡ some key
    → EncodedRank direction guid_key (bytes xs) key
unfolding EncodedRank key_of_rank
guid-EncodedRank direction xs key sixteen h e =
    let (fits, framed) = component-frame xs 16 direction (omega arith) e in
    ((tt, h, omega arith), sym framed)

encode-EncodedRank :
    (texts : TextKeys) (direction : IndexDirection) (kind : ScalarKeyType) (value : RowValue)
    (key : List ℕ)
    → NotText kind
    → IsRowValue value
    → Source texts direction key kind value
    → EncodedRank direction kind (rank kind value) key
encode-EncodedRank texts direction kind value key plain typed (of_binary max_len xs e) =
    binary-EncodedRank direction max_len xs key typed e
encode-EncodedRank texts direction kind value key plain typed (of_guid xs e) =
    guid-EncodedRank direction xs key typed.0 typed.1 e
encode-EncodedRank texts direction kind value key plain typed (of_text max_len order xs e) =
    absurd plain
encode-EncodedRank texts direction kind value key plain typed (of_component raw built same) =
    component-EncodedRank direction kind value raw key typed built same

directed-order :
    (direction : IndexDirection) (xs ys : List ℕ)
    → length xs ≡ length ys
    → AllBytes xs
    → AllBytes ys
    → Before (directed direction xs) (directed direction ys) ↔ InOrder direction xs ys
directed-order ascending xs ys e hx hy = (λ p. p, λ p. p)
directed-order descending xs ys e hx hy = complement-order xs ys e hx hy

numbers-order :
    (direction : IndexDirection) (kind : ScalarKeyType) (a b : ℤ)
    → FitsNumber kind a
    → FitsNumber kind b
    → InOrder direction (number_bytes kind a) (number_bytes kind b)
      ↔ RankInOrder direction (number a) (number b)
numbers-order ascending kind a b ha hb = number_bytes-order kind a b ha hb
numbers-order descending kind a b ha hb = number_bytes-order kind b a hb ha

-- Behind the same marker.
same_head : (b : ℕ) (xs ys : List ℕ) → Before (b ∷ xs) (b ∷ ys) ↔ Before xs ys
same_head b xs ys = (λ p. elim p [ inl q ↦ absurd (omega arith) | inr q ↦ q.1 ], λ p. inr (refl, p))

no_bytes_and_number : (kind : ScalarKeyType) (z : ℤ) → FitsNumber kind z → HasBytes kind → ⊥
no_bytes_and_number (binary_key max_len) z h k = h
no_bytes_and_number guid_key z h k = h
no_bytes_and_number kind z h k = k

numbers_key-order :
    (direction : IndexDirection) (kind : ScalarKeyType) (a b : ℤ)
    → FitsNumber kind a
    → FitsNumber kind b
    → Before (key_of_rank direction kind (number a)) (key_of_rank direction kind (number b))
      ↔ RankInOrder direction (number a) (number b)
unfolding key_of_rank
numbers_key-order direction kind a b ha hb =
    let x = number_bytes kind a in
    let y = number_bytes kind b in
    let heads = same_head (masked direction 0x7f) (directed direction x) (directed direction y) in
    let turned =
      directed-order direction x y (length-number_bytes kind a b ha hb)
        (number_bytes-AllBytes kind a ha) (number_bytes-AllBytes kind b hb) in
    let values = numbers-order direction kind a b ha hb in
    (λ p. values.0 (turned.0 (heads.0 p)), λ p. heads.1 (turned.1 (values.1 p)))

-- The components of ranks are ordered as the ranks.
key_of_rank-order :
    (direction : IndexDirection) (kind : ScalarKeyType) (a b : Rank)
    → FitsRank kind a
    → FitsRank kind b
    → Before (key_of_rank direction kind a) (key_of_rank direction kind b)
      ↔ RankInOrder direction a b
unfolding key_of_rank
key_of_rank-order ascending kind absent absent ha hb =
    (λ p. absurd (Before-irrefl (0 ∷ []) p), λ p. absurd p)
key_of_rank-order descending kind absent absent ha hb =
    (λ p. absurd (Before-irrefl (0xff ∷ []) p), λ p. absurd p)
key_of_rank-order ascending kind absent (number z) ha hb = (λ p. tt, λ p. inl (omega arith))
key_of_rank-order ascending kind absent (bytes y) ha hb = (λ p. tt, λ p. inl (omega arith))
key_of_rank-order descending kind absent (number z) ha hb = (λ p. ground arith, λ p. absurd p)
key_of_rank-order descending kind absent (bytes y) ha hb = (λ p. ground arith, λ p. absurd p)
key_of_rank-order ascending kind (number z) absent ha hb = (λ p. ground arith, λ p. absurd p)
key_of_rank-order ascending kind (bytes x) absent ha hb = (λ p. ground arith, λ p. absurd p)
key_of_rank-order descending kind (number z) absent ha hb = (λ p. tt, λ p. inl (omega arith))
key_of_rank-order descending kind (bytes x) absent ha hb = (λ p. tt, λ p. inl (omega arith))
key_of_rank-order direction kind (number x) (number y) ha hb =
    numbers_key-order direction kind x y ha hb
key_of_rank-order direction kind (number x) (bytes y) ha hb =
    absurd (no_bytes_and_number kind x ha hb.0)
key_of_rank-order direction kind (bytes x) (number y) ha hb =
    absurd (no_bytes_and_number kind y hb ha.0)
key_of_rank-order ascending kind (bytes x) (bytes y) ha hb =
    marked-order ascending x y ha.1 hb.1 ha.2 hb.2
key_of_rank-order descending kind (bytes x) (bytes y) ha hb =
    marked-order descending x y ha.1 hb.1 ha.2 hb.2

-- The components of two values of one kind, Text left out, compare byte by byte as the values' ranks do in
-- the index's direction: nulls first, then numbers by their value, floating-point values by sign and
-- magnitude, and binary values and GUIDs byte by byte.
pub encode-RankInOrder :
    (texts : TextKeys) (kind : ScalarKeyType) (a b : RowValue) (direction : IndexDirection)
    (key_a key_b : List ℕ)
    → NotText kind
    → IsRowValue a
    → IsRowValue b
    → encode texts kind a direction ≡ some key_a
    → encode texts kind b direction ≡ some key_b
    → Before key_a key_b ↔ RankInOrder direction (rank kind a) (rank kind b)
unfolding EncodedRank
encode-RankInOrder texts kind a b direction key_a key_b plain typed_a typed_b ea eb =
    let (fits_a, same_a) =
      encode-EncodedRank texts direction kind a key_a plain typed_a (encode-Source kind a ea) in
    let (fits_b, same_b) =
      encode-EncodedRank texts direction kind b key_b plain typed_b (encode-Source kind b eb) in
    rw same_a
      (rw same_b (key_of_rank-order direction kind (rank kind a) (rank kind b) fits_a fits_b))
