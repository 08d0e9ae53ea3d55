-- ===== src/Index/Key/Binary/Masked.antt =====
-- Blocks and the bytes behind them, turned or not: what they tell of the bytes of the value.
use jet3_rs.Common.{
  ℕ, zero, suc, ◌-◌, ◌≤◌, ◌<◌, ◌≡◌, refl, sym, ap₂, ◌∙◌, arith, ◌==◌, ==_iff, if◌then◌else◌, ◌↔◌,
  List, [], ◌∷◌, map, length, drop, bit_xor,
}
use jet3_rs.Common.Bits.{test_below, bit_xor_complement}
use jet3_rs.Common.Bytes.{AllBytes}
use jet3_rs.Index.Order.{Before, complement-order}
use jet3_rs.Index.Key.{IndexDirection, ascending, descending}
use jet3_rs.Index.Key.Binary.Blocks.{block}
use jet3_rs.Index.Key.Binary.Frame.{masked, tail_byte}

-- The order of an index of the direction.
abbrev pub InOrder : IndexDirection → List ℕ → List ℕ → Type 0
InOrder ascending xs ys = Before xs ys
InOrder descending xs ys = Before ys xs

pub bit_xor_zero : (b : ℕ) → b < 256 → bit_xor b 0 ≡ b
bit_xor_zero b h = (==_iff _ _).0 (test_below (λ x. bit_xor x 0 == x) 256 b refl h)

map-bit_xor_zero : (xs : List ℕ) → AllBytes xs → map (λ b. bit_xor b 0) xs ≡ xs
map-bit_xor_zero [] h = refl
map-bit_xor_zero (x ∷ xs) h = ap₂ ◌∷◌ (bit_xor_zero x h.0) (map-bit_xor_zero xs h.1)

pub block-AllBytes : (k : ℕ) (xs : List ℕ) → AllBytes xs → AllBytes (block k xs)
block-AllBytes zero xs h = tt
block-AllBytes (suc k) [] h = (omega arith, block-AllBytes k [] tt)
block-AllBytes (suc k) (x ∷ xs) h = (h.0, block-AllBytes k xs h.1)

pub drop-AllBytes : (n : ℕ) (xs : List ℕ) → AllBytes xs → AllBytes (drop n xs)
drop-AllBytes zero xs h = h
drop-AllBytes (suc n) [] h = tt
drop-AllBytes (suc n) (x ∷ xs) h = drop-AllBytes n xs h.1

-- Turning the bytes twice gives them back.
pub map-masked_inj :
    (direction : IndexDirection) (xs ys : List ℕ)
    → AllBytes xs
    → AllBytes ys
    → map (masked direction) xs ≡ map (masked direction) ys
    → xs ≡ ys
map-masked_inj ascending xs ys hx hy e = sym (map-bit_xor_zero xs hx) ∙ e ∙ map-bit_xor_zero ys hy
map-masked_inj descending [] [] hx hy e = refl
map-masked_inj descending [] (y ∷ ys) hx hy e = cc
map-masked_inj descending (x ∷ xs) [] hx hy e = cc
map-masked_inj descending (x ∷ xs) (y ∷ ys) hx hy e =
    let same = map-masked_inj descending xs ys hx.1 hy.1 in
    ground (arith, same, bit_xor_complement x hx.0, bit_xor_complement y hy.0)

-- Lists of one length.
pub masked-order :
    (direction : IndexDirection) (xs ys : List ℕ)
    → length xs ≡ length ys
    → AllBytes xs
    → AllBytes ys
    → Before (map (masked direction) xs) (map (masked direction) ys) ↔ InOrder direction xs ys
masked-order ascending xs ys e hx hy =
    rw (map-bit_xor_zero xs hx) (rw (map-bit_xor_zero ys hy) (λ p. p, λ p. p))
masked-order descending xs ys e hx hy = complement-order xs ys e hx hy

pub masked-masked :
    (direction : IndexDirection) (c : ℕ) → c < 256 → masked direction (masked direction c) ≡ c
masked-masked ascending c h =
    bit_xor_zero (bit_xor c 0) (omega (arith, bit_xor_zero c h)) ∙ bit_xor_zero c h
masked-masked descending c h = omega (
  arith,
  bit_xor_complement c h,
  bit_xor_complement (bit_xor c 255) (omega (arith, bit_xor_complement c h)),
)

abbrev pub CountsInOrder : IndexDirection → ℕ → ℕ → Type 0
CountsInOrder ascending c d = c < d
CountsInOrder descending c d = d < c

pub tail_byte-count :
    (direction : IndexDirection) (c : ℕ)
    → c ≤ 9
    → tail_byte direction c
      ≡ (if c == 9 then 9 else elim direction [ ascending ↦ c | descending ↦ 255 - c ])
tail_byte-count ascending c h = ground (arith, bit_xor_zero c (omega arith))
tail_byte-count descending c h = ground (arith, bit_xor_complement c (omega arith))

pub tail_byte-order :
    (direction : IndexDirection) (c d : ℕ)
    → c ≤ 9
    → d ≤ 9
    → ((tail_byte direction c < tail_byte direction d) ↔ CountsInOrder direction c d)
      × ((tail_byte direction c ≡ tail_byte direction d) ↔ (c ≡ d))
tail_byte-order ascending c d hc hd =
    let at = tail_byte-count ascending c hc in
    let bt = tail_byte-count ascending d hd in
    rw at (rw bt ((λ p. ground arith, λ p. ground arith), (λ p. ground arith, λ p. ground arith)))
tail_byte-order descending c d hc hd =
    let at = tail_byte-count descending c hc in
    let bt = tail_byte-count descending d hd in
    rw at (rw bt ((λ p. ground arith, λ p. ground arith), (λ p. ground arith, λ p. ground arith)))
