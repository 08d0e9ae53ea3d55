-- ===== src/Common/Bits.antt =====
-- `&` and `^` as arithmetic: masks and single bits at every width, and tables over one byte.
use Prim.Native.Nat.{ℕ, zero, suc, ◌+◌, ◌-◌, ◌*◌, ◌/◌, ◌%◌, ◌^◌, ◌≤◌, ◌<◌, min}
use Prim.Native.Nat.{bit_and, bit_xor, digits, differ, bit_and-bitwise, bit_xor-bitwise}
use mathlib.Core.Path.{◌≡◌, refl, sym, ap, ◌∙◌}
use mathlib.Core.Bool.{Bool, true, ◌&&◌}
use native.Mathlib.Nat.{pow-suc, one-le-pow, div-add-mod, mod-lt}
use native.Mathlib.Decide.{dec_lt, dec_le}
use native.Mathlib.Omega.{arith}
use jet3_rs.Common.Tests.{◌==◌, ==_iff}

-- A native operation is a recursion on a count of binary digits, with the first number as the count.
-- From there on a larger count gives the same number.
one_more_digit :
    (z : ℕ → ℕ) (f : ℕ → ℕ → ℕ) (count x y : ℕ)
    → x ≤ count
    → digits z f (suc count) x y ≡ digits z f count x y
one_more_digit z f zero zero y small = refl
one_more_digit z f zero (suc x) y small = absurd (omega arith)
one_more_digit z f (suc count) zero y small = refl
one_more_digit z f (suc count) (suc x) y small =
    let rest = one_more_digit z f count (suc x / 2) (y / 2) (omega arith) in
    ap (λ (low : ℕ). low * 2 + f (suc x % 2) (y % 2)) rest

enough_digits :
    (z : ℕ → ℕ) (f : ℕ → ℕ → ℕ) (x y count : ℕ)
    → x ≤ count
    → digits z f count x y ≡ digits z f x x y
enough_digits z f x y zero small = let e : 0 ≡ x = omega arith in ap (λ c. digits z f c x y) e
enough_digits z f x y (suc count) small = elim (dec_le x count) [
  | yes below ↦ one_more_digit z f count x y below ∙ enough_digits z f x y count below
  | no above ↦ let e : suc count ≡ x = omega arith in ap (λ c. digits z f c x y) e
]

-- The digits from the second on, counted by their own number.
digits_behind :
    (z : ℕ → ℕ) (f : ℕ → ℕ → ℕ) (x y : ℕ)
    → digits z f (suc x) (suc x) y
      ≡ digits z f (suc x / 2) (suc x / 2) (y / 2) * 2 + f (suc x % 2) (y % 2)
digits_behind z f x y =
    ap (λ (low : ℕ). low * 2 + f (suc x % 2) (y % 2))
      (enough_digits z f (suc x / 2) (y / 2) x (omega arith))

no_digit_and : (count x : ℕ) → digits (λ y. 0) min count x 0 ≡ 0
no_digit_and zero x = refl
no_digit_and (suc count) zero = refl
no_digit_and (suc count) (suc x) = omega (arith, no_digit_and count (suc x / 2))

bit_and-zero : (x : ℕ) → bit_and x 0 ≡ 0
bit_and-zero x = bit_and-bitwise x 0 ∙ no_digit_and x x

zero-bit_and : (y : ℕ) → bit_and 0 y ≡ 0
zero-bit_and = bit_and-bitwise 0

-- The lowest digit of a conjunction, and those above it.
bit_and_low_digit : (x y : ℕ) → bit_and x y ≡ min (x % 2) (y % 2) + 2 * bit_and (x / 2) (y / 2)
bit_and_low_digit zero y = omega (arith, zero-bit_and y, zero-bit_and (y / 2))
bit_and_low_digit (suc x) y =
    let whole = bit_and-bitwise (suc x) y ∙ digits_behind (λ y. 0) min x y in
    let above = bit_and-bitwise (suc x / 2) (y / 2) in omega (arith, whole, above)

mul-two_pow-suc : (q k : ℕ) → q * 2 ^ suc k ≡ 2 * (q * 2 ^ k)
mul-two_pow-suc q k = omega (arith, ap (λ (t : ℕ). q * t) (pow-suc 2 k))

bit_and_low : (k q r : ℕ) → r < 2 ^ k → bit_and (q * 2 ^ k + r) (2 ^ k - 1) ≡ r
bit_and_low zero q r h = omega (arith, bit_and-zero (q * 1 + r))
bit_and_low (suc k) q r h = ground (
  arith,
  bit_and_low_digit (q * 2 ^ suc k + r) (2 ^ suc k - 1),
  mul-two_pow-suc q k,
  pow-suc 2 k,
  one-le-pow k 2,
  bit_and_low k q (r / 2) (omega (arith, pow-suc 2 k)),
)

-- A mask of the `k` low bits is the remainder by `2 ^ k`.
pub bit_and_mask : (k a : ℕ) → bit_and a (2 ^ k - 1) ≡ a % 2 ^ k
bit_and_mask k a = ground (arith, one-le-pow k 2, bit_and_low k (a / 2 ^ k) (a % 2 ^ k))

bit_and_one_bit :
    (k q c r : ℕ) → c < 2 → r < 2 ^ k → bit_and ((2 * q + c) * 2 ^ k + r) (2 ^ k) ≡ c * 2 ^ k
bit_and_one_bit zero q c r hc h =
    omega
      (arith, bit_and_low_digit ((2 * q + c) * 1 + r) 1, bit_and-zero (((2 * q + c) * 1 + r) / 2))
bit_and_one_bit (suc k) q c r hc h = ground (
  arith,
  bit_and_low_digit ((2 * q + c) * 2 ^ suc k + r) (2 ^ suc k),
  mul-two_pow-suc (2 * q + c) k,
  mul-two_pow-suc c k,
  pow-suc 2 k,
  bit_and_one_bit k q c (r / 2) hc (omega (arith, pow-suc 2 k)),
)

split_at_bit : (p a : ℕ) → (2 * (a / p / 2) + a / p % 2) * p + a % p ≡ a
split_at_bit p a =
    let e : 2 * (a / p / 2) + a / p % 2 ≡ a / p = omega arith in
    rw e (omega (arith, div-add-mod a p))

-- A mask of the single bit `k`.
pub bit_and_bit : (k a : ℕ) → bit_and a (2 ^ k) ≡ a / 2 ^ k % 2 * 2 ^ k
bit_and_bit k a =
    ap (λ (t : ℕ). bit_and t (2 ^ k)) (sym (split_at_bit (2 ^ k) a))
    ∙ bit_and_one_bit k (a / 2 ^ k / 2) (a / 2 ^ k % 2) (a % 2 ^ k) (omega arith)
        (mod-lt a (one-le-pow k 2 (omega arith)))

bit_and_above :
    (k q m r : ℕ) → r < 2 ^ k → bit_and (q * 2 ^ k + r) (m * 2 ^ k) ≡ bit_and q m * 2 ^ k
bit_and_above zero q m r h =
    let e : q * 1 + r ≡ q = omega arith in
    let f : m * 1 ≡ m = omega arith in rw e (rw f (omega arith))
bit_and_above (suc k) q m r h = ground (
  arith,
  bit_and_low_digit (q * 2 ^ suc k + r) (m * 2 ^ suc k),
  mul-two_pow-suc q k,
  mul-two_pow-suc m k,
  mul-two_pow-suc (bit_and q m) k,
  pow-suc 2 k,
  bit_and_above k q m (r / 2) (omega (arith, pow-suc 2 k)),
)

-- A mask of bits from bit `k` on.
pub bit_and_high : (k a m : ℕ) → bit_and a (m * 2 ^ k) ≡ bit_and (a / 2 ^ k) m * 2 ^ k
bit_and_high k a m =
    let e : a / 2 ^ k * 2 ^ k + a % 2 ^ k ≡ a = omega (arith, div-add-mod a (2 ^ k)) in
    let all = bit_and_above k (a / 2 ^ k) m (a % 2 ^ k) (mod-lt a (one-le-pow k 2 (omega arith))) in
    rw e at all

-- A test is tried on every number below a bound.
abbrev pub passes_below : (ℕ → Bool) → ℕ → Bool
passes_below test zero = true
passes_below test (suc bound) = passes_below test bound && test bound

pub test_below :
    (test : ℕ → Bool) (bound i : ℕ) → passes_below test bound ≡ true → i < bound → test i ≡ true
test_below test zero i all inside = absurd (omega arith)
test_below test (suc bound) i all inside = elim (dec_lt i bound) [
  | yes below ↦ ground (arith, test_below test bound i)
  | no above ↦ let e : bound ≡ i = omega arith in rw (← e) (ground arith)
]

pub bit_xor_complement : (b : ℕ) → b < 256 → bit_xor b 0xff ≡ 255 - b
bit_xor_complement b h = (==_iff _ _).0 (test_below (λ x. bit_xor x 0xff == 255 - x) 256 b refl h)

pub bit_xor_top : (b : ℕ) → b < 256 → bit_xor b 0x80 ≡ (b + 128) % 256
bit_xor_top b h = (==_iff _ _).0 (test_below (λ x. bit_xor x 0x80 == (x + 128) % 256) 256 b refl h)

zero-bit_xor : (y : ℕ) → bit_xor 0 y ≡ y
zero-bit_xor y = bit_xor-bitwise 0 y

differ_zero : (x : ℕ) → differ x 0 ≡ x
differ_zero zero = refl
differ_zero (suc x) = refl

half_pow : (k : ℕ) → 2 ^ suc k / 2 ≡ 2 ^ k
half_pow k = omega (arith, pow-suc 2 k)

-- The lowest digit of an exclusive or with an even number, and those above it.
bit_xor_even : (x y : ℕ) → y % 2 ≡ 0 → bit_xor x y ≡ x % 2 + 2 * bit_xor (x / 2) (y / 2)
bit_xor_even zero y even = omega (arith, zero-bit_xor y, zero-bit_xor (y / 2))
bit_xor_even (suc x) y even =
    let whole = bit_xor-bitwise (suc x) y ∙ digits_behind (λ b. b) differ x y in
    let above = bit_xor-bitwise (suc x / 2) (y / 2) in
    let lowest : differ (suc x % 2) (y % 2) ≡ suc x % 2 = rw even (differ_zero (suc x % 2)) in
    omega (arith, whole, above, lowest)

-- A bit above all of a number is put before it.
pub bit_xor_above : (k b : ℕ) → b < 2 ^ k → bit_xor b (2 ^ k) ≡ b + 2 ^ k
bit_xor_above zero b h = let e : b ≡ 0 = omega arith in rw e refl
bit_xor_above (suc k) b h = omega (
  arith,
  pow-suc 2 k,
  bit_xor_even b (2 ^ suc k) (omega (arith, pow-suc 2 k)),
  bit_xor_above k (b / 2) (omega (arith, pow-suc 2 k)),
  ap (bit_xor (b / 2)) (half_pow k),
)
