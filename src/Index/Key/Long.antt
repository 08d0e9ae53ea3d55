-- ===== src/Index/Key/Long.antt =====
-- The keys of Long values are ordered as the values.
use jet3_rs.Common.{
  ℕ, ◌+◌, ◌/◌, ◌%◌, ◌^◌, ◌<◌, ◌≡◌, refl, arith, List, ◌∷◌, bit_xor, ◌↔◌, ap, ap₂, inl, inr,
}
use jet3_rs.Common.Bytes.{AllBytes}
use jet3_rs.Common.Bits.{bit_xor_top}
use jet3_rs.Common.Int.{ℤ, pos, negsuc, ◌<ℤ◌, FitsSigned, to_word, to_word-lt}
use jet3_rs.Index.Order.{Before, to_be_bytes, word-order, complement-order}
use jet3_rs.Index.Key.{IndexDirection, ascending, descending, flip_sign, directed, encode_long}

-- The word with its sign bit flipped: the integer moved up by 2 ^ 31.
abbrev shifted : ℕ → ℕ
shifted w = (w + 2147483648) % 4294967296

flip_sign-to_be_bytes :
    (w : ℕ) → w < 2 ^ 32 → flip_sign (to_be_bytes 4 w) ≡ to_be_bytes 4 (shifted w)
flip_sign-to_be_bytes w h =
    let top : bit_xor (w / 256 ^ 3 % 256) 0x80 ≡ shifted w / 256 ^ 3 % 256 =
      omega (arith, bit_xor_top (w / 256 ^ 3 % 256) (omega arith)) in
    ap₂ ◌∷◌ top (ap₂ ◌∷◌ (omega arith) (ap₂ ◌∷◌ (omega arith) (ap₂ ◌∷◌ (omega arith) refl)))

shifted-order :
    (a b : ℤ)
    → FitsSigned (2 ^ 31) a
    → FitsSigned (2 ^ 31) b
    → (shifted (to_word (2 ^ 31) a) < shifted (to_word (2 ^ 31) b)) ↔ (a <ℤ b)
shifted-order (pos m) (pos n) ha hb = (λ p. ground arith, λ p. ground arith)
shifted-order (pos m) (negsuc n) ha hb = (λ p. ground arith, λ p. ground arith)
shifted-order (negsuc m) (pos n) ha hb = (λ p. ground arith, λ p. ground arith)
shifted-order (negsuc m) (negsuc n) ha hb = (λ p. ground arith, λ p. ground arith)

-- The order that an index of the direction keeps its values in.
abbrev pub Precedes : IndexDirection → ℤ → ℤ → Type 0
Precedes ascending a b = a <ℤ b
Precedes descending a b = b <ℤ a

abbrev marked : ℤ → List ℕ
marked a = 0x7f ∷ to_be_bytes 4 (shifted (to_word (2 ^ 31) a))

encode_long-marked :
    (direction : IndexDirection) (a : ℤ)
    → FitsSigned (2 ^ 31) a
    → encode_long a direction ≡ directed direction (marked a)
unfolding encode_long
encode_long-marked direction a h =
    ap (λ bytes. directed direction (0x7f ∷ bytes))
      (flip_sign-to_be_bytes (to_word (2 ^ 31) a) (to_word-lt (2 ^ 31) a h))

marked-AllBytes : (a : ℤ) → AllBytes (marked a)
marked-AllBytes a = (omega arith, (omega arith, (omega arith, (omega arith, (omega arith, tt)))))

marked-order :
    (a b : ℤ)
    → FitsSigned (2 ^ 31) a
    → FitsSigned (2 ^ 31) b
    → Before (marked a) (marked b) ↔ (a <ℤ b)
marked-order a b ha hb =
    let words =
      word-order (shifted (to_word (2 ^ 31) a)) (shifted (to_word (2 ^ 31) b)) (omega arith)
        (omega arith) in
    let values = shifted-order a b ha hb in
    (
      λ p. elim p [ inl below ↦ absurd (omega arith) | inr (same, rest) ↦ values.0 (words.0 rest) ],
      λ p. inr (refl, words.1 (values.1 p)),
    )

-- The keys of two `i32` values compare, byte by byte, as the values do in the index's direction.
pub encode_long-order :
    (direction : IndexDirection) (a b : ℤ)
    → FitsSigned (2 ^ 31) a
    → FitsSigned (2 ^ 31) b
    → Before (encode_long a direction) (encode_long b direction) ↔ Precedes direction a b
encode_long-order ascending a b ha hb =
    rw (encode_long-marked ascending a ha)
      (rw (encode_long-marked ascending b hb) (marked-order a b ha hb))
encode_long-order descending a b ha hb =
    let turned =
      complement-order (marked a) (marked b) refl (marked-AllBytes a) (marked-AllBytes b) in
    let values = marked-order b a hb ha in
    rw (encode_long-marked descending a ha) (
      rw (encode_long-marked descending b hb)
        (λ p. values.0 (turned.0 p), λ p. turned.1 (values.1 p)))
