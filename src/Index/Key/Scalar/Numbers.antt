-- ===== src/Index/Key/Scalar/Numbers.antt =====
-- Numbers as big-endian bytes, of any width: their order, with and without the sign bit turned.
use native.Mathlib.Nat.{
  pow-suc, one-le-pow, div-add-mod, mod-lt, div-div-eq-div-mul, mod-eq_of_lt, mul-le-mul_left,
}
use native.Mathlib.Decide.{dec_lt}
use jet3_rs.Common.{
  ℕ, zero, suc, ◌+◌, ◌-◌, ◌*◌, ◌/◌, ◌%◌, ◌^◌, ◌<◌, ◌≡◌, ap, arith, ltb, if◌then◌else◌, ◌⊎◌, ◌↔◌,
  inl, inr, bit_xor,
}
use jet3_rs.Common.Bits.{bit_xor_top}
use jet3_rs.Common.Int.{ℤ, pos, negsuc, ◌<ℤ◌, FitsSigned, to_word}
use jet3_rs.Index.Key.{flip_sign}
use jet3_rs.Index.Order.{Before, to_be_bytes}

-- The remainder by one digit more.
mod_digit : (p v : ℕ) → v % (p * 256) ≡ v / p % 256 * p + v % p
mod_digit p v =
    let quotient = ap (λ (t : ℕ). t * p) (div-add-mod (v / p) 256) in
    let once = div-add-mod v p in
    let twice = div-add-mod v (p * 256) in let both = div-div-eq-div-mul v p 256 in grind arith

digit_below : (p a b r s : ℕ) → r < p → a < b → a * p + r < b * p + s
digit_below p a b r s hr h =
    let apart : b ≡ suc a + (b - suc a) = omega arith in
    let e = ap (λ (t : ℕ). t * p) apart in grind arith

-- Digits and what stands behind them, compared.
lexicographic :
    (p a b r s : ℕ) → r < p → s < p → ((a < b) ⊎ ((a ≡ b) × (r < s))) ↔ (a * p + r < b * p + s)
lexicographic p a b r s hr hs = (
  λ h. elim h [
    | inl below ↦ digit_below p a b r s hr below
    | inr (same, rest) ↦ rw same (omega arith)
  ],
  λ h. elim (dec_lt a b) [
    | yes below ↦ inl below
    | no not_below ↦ elim (dec_lt b a) [
      | yes above ↦ absurd (omega (arith, digit_below p b a s r hs above))
      | no not_above ↦
          let same : a ≡ b = omega arith in inr (same, omega (arith, ap (λ (t : ℕ). t * p) same))
    ]
  ],
)

pub to_be_bytes-order :
    (n v w : ℕ) → Before (to_be_bytes n v) (to_be_bytes n w) ↔ (v % 256 ^ n < w % 256 ^ n)
to_be_bytes-order zero v w = (λ h. absurd h, λ h. absurd (omega arith))
to_be_bytes-order (suc n) v w =
    let p = 256 ^ n in
    let rest = to_be_bytes-order n v w in
    let positive : 0 < p = one-le-pow n 256 (omega arith) in
    let digits =
      lexicographic p (v / p % 256) (w / p % 256) (v % p) (w % p) (mod-lt v positive)
        (mod-lt w positive) in
    rw (pow-suc 256 n) (
      rw (mod_digit p v) (
        rw (mod_digit p w) (
          λ h.
              digits.0
                (elim h [ inl below ↦ inl below | inr (same, behind) ↦ inr (same, rest.0 behind) ]),
          λ h. elim (digits.1 h) [
            | inl below ↦ inl below
            | inr (same, behind) ↦ inr (same, rest.1 behind)
          ],
        )))

-- A word below the range of its bytes is itself.
pub bytes-order :
    (n v w : ℕ) → v < 256 ^ n → w < 256 ^ n → Before (to_be_bytes n v) (to_be_bytes n w) ↔ (v < w)
bytes-order n v w hv hw =
    let order = to_be_bytes-order n v w in
    let same_v = mod-eq_of_lt hv in
    let same_w = mod-eq_of_lt hw in (λ h. omega (arith, order.0 h), λ h. order.1 (omega arith))

-- The word with its sign bit turned, where `p` is the weight of the first byte.
abbrev turned : ℕ → ℕ → ℕ
turned p v = if ltb v (128 * p) then v + 128 * p else v - 128 * p

first_byte-lt : (p v : ℕ) → 0 < p → v < p * 256 → v / p < 256
first_byte-lt p v hp h = elim (dec_lt (v / p) 256) [
  | yes below ↦ below
  | no above ↦
      let whole = div-add-mod v p in
      let large = mul-le-mul_left {m = 256} {n = v / p} p (omega arith) in absurd (omega arith)
]

turned_bytes : (p v : ℕ) → 0 < p → v < p * 256 → bit_xor (v / p % 256) 0x80 * p + v % p ≡ turned p v
turned_bytes p v hp h =
    let small = first_byte-lt p v hp h in
    let whole = div-add-mod v p in
    let flip = bit_xor_top (v / p % 256) (omega arith) in
    let rest = mod-lt v hp in
    elim (dec_lt (v / p) 128) [
      | yes low ↦
          let first : bit_xor (v / p % 256) 0x80 ≡ v / p + 128 = omega arith in
          let below = mul-le-mul_left {m = suc (v / p)} {n = 128} p (omega arith) in
          rw first (ground (arith, below))
      | no high ↦
          let first : bit_xor (v / p % 256) 0x80 ≡ v / p - 128 = omega arith in
          let above = mul-le-mul_left {m = 128} {n = v / p} p (omega arith) in
          let split : v / p ≡ v / p - 128 + 128 = omega arith in
          let scaled = ap (λ (t : ℕ). t * p) split in rw first (ground arith)
    ]

pub flip_sign-order :
    (m v w : ℕ)
    → v < 256 ^ suc m
    → w < 256 ^ suc m
    → Before (flip_sign (to_be_bytes (suc m) v)) (flip_sign (to_be_bytes (suc m) w))
      ↔ (turned (256 ^ m) v < turned (256 ^ m) w)
flip_sign-order m v w hv hw =
    let p = 256 ^ m in
    let positive : 0 < p = one-le-pow m 256 (omega arith) in
    let rest = to_be_bytes-order m v w in
    let tv = turned_bytes p v positive (rw (pow-suc 256 m) at hv) in
    let tw = turned_bytes p w positive (rw (pow-suc 256 m) at hw) in
    let digits =
      lexicographic p (bit_xor (v / p % 256) 0x80) (bit_xor (w / p % 256) 0x80) (v % p) (w % p)
        (mod-lt v positive) (mod-lt w positive) in
    rw (← tv) (
      rw (← tw) (
        λ h.
            digits.0
              (elim h [ inl below ↦ inl below | inr (same, behind) ↦ inr (same, rest.0 behind) ]),
        λ h. elim (digits.1 h) [
          | inl below ↦ inl below
          | inr (same, behind) ↦ inr (same, rest.1 behind)
        ],
      ))

-- The words of two integers, turned, are ordered as the integers.
pub turned-order :
    (p : ℕ) (a b : ℤ)
    → FitsSigned (128 * p) a
    → FitsSigned (128 * p) b
    → (turned p (to_word (128 * p) a) < turned p (to_word (128 * p) b)) ↔ (a <ℤ b)
turned-order p (pos m) (pos n) ha hb = (λ h. ground arith, λ h. ground arith)
turned-order p (pos m) (negsuc n) ha hb = (λ h. ground arith, λ h. absurd h)
turned-order p (negsuc m) (pos n) ha hb = (λ h. tt, λ h. ground arith)
turned-order p (negsuc m) (negsuc n) ha hb = (λ h. ground arith, λ h. ground arith)
