-- ===== src/Index/Key/Scalar/Rank.antt =====
-- What the order of an index goes by: nothing for a null, an integer for a number, a Boolean or a
-- floating-point value, and bytes for the others; and the bytes of a component that stand for it.
use jet3_rs.Common.{
  ℕ, zero, suc, ◌+◌, ◌-◌, ◌*◌, ◌^◌, ◌<◌, ◌≡◌, refl, arith, ltb, if◌then◌else◌, true, false, List,
  [], ◌∷◌, length, ◌↔◌, inl,
}
use jet3_rs.Common.Bits.{bit_xor_above, bit_xor_top}
use jet3_rs.Common.Bytes.{AllBytes}
use jet3_rs.Common.Int.{ℤ, pos, negsuc, ◌<ℤ◌, FitsSigned, to_word, to_word-lt}
use jet3_rs.Row.Value.{
  RowValue, null, boolean, byte, integer, long, currency, single, double, date_time, binary, guid,
}
use jet3_rs.Index.Order.{Before, to_be_bytes}
use jet3_rs.Index.Key.{IndexDirection, ascending, descending, flip_sign}
use jet3_rs.Index.Key.Scalar.{
  ScalarKeyType, boolean_key, byte_key, integer_key, long_key, currency_key, single_key, double_key,
  date_time_key, guid_key, binary_key, ordered_bits,
}
use jet3_rs.Index.Key.Scalar.Numbers.{bytes-order, flip_sign-order, turned-order}

pub data Rank : Type 0 where
  absent : Rank
  number : ℤ → Rank
  bytes : List ℕ → Rank

-- A sign and a magnitude as an integer: the order of finite IEEE values, with -0 just before 0.
abbrev pub float_rank : (half bits : ℕ) → ℤ
float_rank half bits = if ltb bits half then pos bits else negsuc (bits - half)

-- True, which is stored as -1, comes before False, and a Boolean null is False.
abbrev pub rank : ScalarKeyType → RowValue → Rank
rank boolean_key null = number (pos 0)
rank boolean_key (boolean true) = number (negsuc 0)
rank boolean_key (boolean false) = number (pos 0)
rank byte_key (byte v) = number (pos v)
rank integer_key (integer v) = number v
rank long_key (long v) = number v
rank currency_key (currency scaled) = number scaled
rank single_key (single bits) = number (float_rank (2 ^ 31) bits)
rank double_key (double bits) = number (float_rank (2 ^ 63) bits)
rank date_time_key (date_time bits) = number (float_rank (2 ^ 63) bits)
rank (binary_key max_len) (binary (b ∷ bs)) = bytes (b ∷ bs)
rank guid_key (guid bs) = bytes bs
rank kind value = absent

-- Nulls come first.
abbrev pub RankBefore : Rank → Rank → Type 0
RankBefore absent absent = ⊥
RankBefore absent b = Unit {0}
RankBefore (number x) (number y) = x <ℤ y
RankBefore (bytes x) (bytes y) = Before x y
RankBefore a b = ⊥

abbrev pub RankInOrder : IndexDirection → Rank → Rank → Type 0
RankInOrder ascending a b = RankBefore a b
RankInOrder descending a b = RankBefore b a

-- The integers that rank the values of a kind.
abbrev pub FitsNumber : ScalarKeyType → ℤ → Type 0
FitsNumber boolean_key z = FitsSigned 1 z
FitsNumber byte_key (pos v) = v < 256
FitsNumber integer_key z = FitsSigned (2 ^ 15) z
FitsNumber long_key z = FitsSigned (2 ^ 31) z
FitsNumber currency_key z = FitsSigned (2 ^ 63) z
FitsNumber single_key z = FitsSigned (2 ^ 31) z
FitsNumber double_key z = FitsSigned (2 ^ 63) z
FitsNumber date_time_key z = FitsSigned (2 ^ 63) z
FitsNumber kind z = ⊥

abbrev pub ordered_rank : ℕ → ℤ → ℕ
ordered_rank half (pos b) = b + half
ordered_rank half (negsuc m) = half - 1 - m

-- The bytes behind the marker, in ascending order.
unfoldable pub number_bytes : ScalarKeyType → ℤ → List ℕ
number_bytes boolean_key (pos v) = 0xff ∷ []
number_bytes boolean_key (negsuc v) = 0 ∷ []
number_bytes byte_key (pos v) = v ∷ []
number_bytes integer_key z = flip_sign (to_be_bytes 2 (to_word (2 ^ 15) z))
number_bytes long_key z = flip_sign (to_be_bytes 4 (to_word (2 ^ 31) z))
number_bytes currency_key z = flip_sign (to_be_bytes 8 (to_word (2 ^ 63) z))
number_bytes single_key z = to_be_bytes 4 (ordered_rank (2 ^ 31) z)
number_bytes double_key z = to_be_bytes 8 (ordered_rank (2 ^ 63) z)
number_bytes date_time_key z = to_be_bytes 8 (ordered_rank (2 ^ 63) z)
number_bytes kind z = []

-- Floating-point values.
pub ordered_bits-rank :
    (k bits : ℕ)
    → bits < 2 ^ k + 2 ^ k
    → ordered_bits (2 ^ k) bits ≡ ordered_rank (2 ^ k) (float_rank (2 ^ k) bits)
unfolding ordered_bits
ordered_bits-rank k bits h = ground (arith, bit_xor_above k bits)

pub float_rank-FitsSigned :
    (half bits : ℕ) → bits < half + half → FitsSigned half (float_rank half bits)
float_rank-FitsSigned half bits h = ground arith

ordered_rank-order :
    (half : ℕ) (a b : ℤ)
    → FitsSigned half a
    → FitsSigned half b
    → (ordered_rank half a < ordered_rank half b) ↔ (a <ℤ b)
ordered_rank-order half (pos m) (pos n) ha hb = (λ h. omega arith, λ h. omega arith)
ordered_rank-order half (pos m) (negsuc n) ha hb = (λ h. omega arith, λ h. absurd h)
ordered_rank-order half (negsuc m) (pos n) ha hb = (λ h. tt, λ h. omega arith)
ordered_rank-order half (negsuc m) (negsuc n) ha hb = (λ h. omega arith, λ h. omega arith)

ordered_rank-lt : (half : ℕ) (a : ℤ) → FitsSigned half a → ordered_rank half a < half + half
ordered_rank-lt half (pos m) h = omega arith
ordered_rank-lt half (negsuc m) h = omega arith

-- Integers of each width, and floating-point values.
word_bytes-order :
    (m : ℕ) (a b : ℤ)
    → 128 * 256 ^ m + 128 * 256 ^ m ≡ 256 ^ suc m
    → FitsSigned (128 * 256 ^ m) a
    → FitsSigned (128 * 256 ^ m) b
    → Before
        (flip_sign (to_be_bytes (suc m) (to_word (128 * 256 ^ m) a)))
        (flip_sign (to_be_bytes (suc m) (to_word (128 * 256 ^ m) b)))
      ↔ (a <ℤ b)
word_bytes-order m a b e ha hb =
    let half = 128 * 256 ^ m in
    let words =
      flip_sign-order m (to_word half a) (to_word half b) (rw e at (to_word-lt half a ha))
        (rw e at (to_word-lt half b hb)) in
    let values = turned-order (256 ^ m) a b ha hb in
    (λ p. values.0 (words.0 p), λ p. words.1 (values.1 p))

float_bytes-order :
    (n half : ℕ) (a b : ℤ)
    → half + half ≡ 256 ^ n
    → FitsSigned half a
    → FitsSigned half b
    → Before (to_be_bytes n (ordered_rank half a)) (to_be_bytes n (ordered_rank half b)) ↔ (a <ℤ b)
float_bytes-order n half a b e ha hb =
    let words =
      bytes-order n (ordered_rank half a) (ordered_rank half b)
        (rw e at (ordered_rank-lt half a ha)) (rw e at (ordered_rank-lt half b hb)) in
    let values = ordered_rank-order half a b ha hb in
    (λ p. values.0 (words.0 p), λ p. words.1 (values.1 p))

boolean_bytes-order :
    (a b : ℤ)
    → FitsSigned 1 a
    → FitsSigned 1 b
    → Before (number_bytes boolean_key a) (number_bytes boolean_key b) ↔ (a <ℤ b)
unfolding number_bytes
boolean_bytes-order (pos m) (pos n) ha hb = (λ p. ground arith, λ p. absurd (omega arith))
boolean_bytes-order (pos m) (negsuc n) ha hb = (λ p. ground arith, λ p. absurd p)
boolean_bytes-order (negsuc m) (pos n) ha hb = (λ p. tt, λ p. inl (omega arith))
boolean_bytes-order (negsuc m) (negsuc n) ha hb = (λ p. ground arith, λ p. absurd (omega arith))

byte_bytes-order :
    (a b : ℤ)
    → FitsNumber byte_key a
    → FitsNumber byte_key b
    → Before (number_bytes byte_key a) (number_bytes byte_key b) ↔ (a <ℤ b)
unfolding number_bytes
byte_bytes-order (pos m) (pos n) ha hb = (λ p. ground arith, λ p. inl p)
byte_bytes-order (pos m) (negsuc n) ha hb = absurd hb
byte_bytes-order (negsuc m) b ha hb = absurd ha

-- The bytes are ordered as the integers.
pub number_bytes-order :
    (kind : ScalarKeyType) (a b : ℤ)
    → FitsNumber kind a
    → FitsNumber kind b
    → Before (number_bytes kind a) (number_bytes kind b) ↔ (a <ℤ b)
unfolding number_bytes
number_bytes-order boolean_key a b ha hb = boolean_bytes-order a b ha hb
number_bytes-order byte_key a b ha hb = byte_bytes-order a b ha hb
number_bytes-order integer_key a b ha hb = word_bytes-order 1 a b refl ha hb
number_bytes-order long_key a b ha hb = word_bytes-order 3 a b refl ha hb
number_bytes-order currency_key a b ha hb = word_bytes-order 7 a b refl ha hb
number_bytes-order single_key a b ha hb = float_bytes-order 4 (2 ^ 31) a b refl ha hb
number_bytes-order double_key a b ha hb = float_bytes-order 8 (2 ^ 63) a b refl ha hb
number_bytes-order date_time_key a b ha hb = float_bytes-order 8 (2 ^ 63) a b refl ha hb
number_bytes-order kind a b ha hb = absurd ha

flip_sign-AllBytes : (bs : List ℕ) → AllBytes bs → AllBytes (flip_sign bs)
flip_sign-AllBytes [] h = tt
flip_sign-AllBytes (b ∷ bs) h = (omega (arith, bit_xor_top b h.0), h.1)

to_be_bytes-AllBytes : (n v : ℕ) → AllBytes (to_be_bytes n v)
to_be_bytes-AllBytes zero v = tt
to_be_bytes-AllBytes (suc n) v = (omega arith, to_be_bytes-AllBytes n v)

pub number_bytes-AllBytes :
    (kind : ScalarKeyType) (z : ℤ) → FitsNumber kind z → AllBytes (number_bytes kind z)
unfolding number_bytes
number_bytes-AllBytes boolean_key (pos v) h = omega arith
number_bytes-AllBytes boolean_key (negsuc v) h = omega arith
number_bytes-AllBytes byte_key (pos v) h = (h, tt)
number_bytes-AllBytes byte_key (negsuc v) h = absurd h
number_bytes-AllBytes integer_key z h =
    flip_sign-AllBytes (to_be_bytes 2 (to_word (2 ^ 15) z))
      (to_be_bytes-AllBytes 2 (to_word (2 ^ 15) z))
number_bytes-AllBytes long_key z h =
    flip_sign-AllBytes (to_be_bytes 4 (to_word (2 ^ 31) z))
      (to_be_bytes-AllBytes 4 (to_word (2 ^ 31) z))
number_bytes-AllBytes currency_key z h =
    flip_sign-AllBytes (to_be_bytes 8 (to_word (2 ^ 63) z))
      (to_be_bytes-AllBytes 8 (to_word (2 ^ 63) z))
number_bytes-AllBytes single_key z h = to_be_bytes-AllBytes 4 (ordered_rank (2 ^ 31) z)
number_bytes-AllBytes double_key z h = to_be_bytes-AllBytes 8 (ordered_rank (2 ^ 63) z)
number_bytes-AllBytes date_time_key z h = to_be_bytes-AllBytes 8 (ordered_rank (2 ^ 63) z)
number_bytes-AllBytes kind z h = absurd h

pub length-number_bytes :
    (kind : ScalarKeyType) (a b : ℤ)
    → FitsNumber kind a
    → FitsNumber kind b
    → length (number_bytes kind a) ≡ length (number_bytes kind b)
unfolding number_bytes
length-number_bytes boolean_key (pos v) (pos w) ha hb = refl
length-number_bytes boolean_key (pos v) (negsuc w) ha hb = refl
length-number_bytes boolean_key (negsuc v) (pos w) ha hb = refl
length-number_bytes boolean_key (negsuc v) (negsuc w) ha hb = refl
length-number_bytes byte_key (pos v) (pos w) ha hb = refl
length-number_bytes byte_key (pos v) (negsuc w) ha hb = absurd hb
length-number_bytes byte_key (negsuc v) b ha hb = absurd ha
length-number_bytes kind a b ha hb = refl
