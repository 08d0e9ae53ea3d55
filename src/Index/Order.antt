-- ===== src/Index/Order.antt =====
-- The order of keys: byte by byte, as the index compares them.
use jet3_rs.Common.{
  ℕ, zero, suc, ◌/◌, ◌%◌, ◌^◌, ◌<◌, ◌≡◌, arith, List, [], ◌∷◌, ◌++◌, map, length, ◌⊎◌, ◌↔◌, inl,
  inr, refl, bit_xor,
}
use jet3_rs.Common.Bytes.{AllBytes}
use jet3_rs.Common.Bits.{bit_xor_complement}

-- The first list comes before the second.
abbrev pub Before : List ℕ → List ℕ → Type 0
Before [] [] = ⊥
Before [] (y ∷ ys) = Unit {0}
Before (x ∷ xs) [] = ⊥
Before (x ∷ xs) (y ∷ ys) = (x < y) ⊎ ((x ≡ y) × Before xs ys)

-- `to_be_bytes` of an integer of `n` bytes.
abbrev pub to_be_bytes : ℕ → ℕ → List ℕ
to_be_bytes zero v = []
to_be_bytes (suc n) v = (v / 256 ^ n % 256) ∷ to_be_bytes n v

-- Four bytes are ordered as the number they stand for.
pub word-order :
    (v w : ℕ) → v < 2 ^ 32 → w < 2 ^ 32 → Before (to_be_bytes 4 v) (to_be_bytes 4 w) ↔ (v < w)
word-order v w hv hw = (λ p. ground arith, λ p. ground arith)

pub Before-irrefl : (xs : List ℕ) → ¬ Before xs xs
Before-irrefl [] p = elim p [ ]
Before-irrefl (x ∷ xs) (inl p) = absurd (omega arith)
Before-irrefl (x ∷ xs) (inr p) = Before-irrefl xs p.1

-- The order of two lists is that of their first parts, and behind equal first parts that of the rests.
pub Before-append :
    (xs ys zs ws : List ℕ)
    → length xs ≡ length ys
    → Before (xs ++ zs) (ys ++ ws) ↔ (Before xs ys ⊎ ((xs ≡ ys) × Before zs ws))
Before-append [] [] zs ws e = (λ p. inr (refl, p), λ p. elim p [ inl q ↦ absurd q | inr q ↦ q.1 ])
Before-append [] (y ∷ ys) zs ws e = absurd (omega arith)
Before-append (x ∷ xs) [] zs ws e = absurd (omega arith)
Before-append (x ∷ xs) (y ∷ ys) zs ws e =
    let rest = Before-append xs ys zs ws (omega arith) in
    (λ p. ground (arith, rest), λ p. ground (arith, rest))

-- The complement of every byte turns the order round, between lists of one length.
pub complement-order :
    (xs ys : List ℕ)
    → length xs ≡ length ys
    → AllBytes xs
    → AllBytes ys
    → Before (map (λ b. bit_xor b 0xff) xs) (map (λ b. bit_xor b 0xff) ys) ↔ Before ys xs
complement-order [] [] e hx hy = (λ p. p, λ p. p)
complement-order [] (y ∷ ys) e hx hy = absurd (omega arith)
complement-order (x ∷ xs) [] e hx hy = absurd (omega arith)
complement-order (x ∷ xs) (y ∷ ys) e hx hy =
    let rest = complement-order xs ys (omega arith) hx.1 hy.1 in
    (
      λ p. ground (arith, bit_xor_complement x hx.0, bit_xor_complement y hy.0, rest),
      λ p. ground (arith, bit_xor_complement x hx.0, bit_xor_complement y hy.0, rest),
    )
