-- ===== src/Index/Key/Binary/Blocks.antt =====
-- A list of bytes as a block of `k` bytes, filled up with zeros, with a count that tells how much of
-- the block is the list's: the order of lists is that of their blocks, counts and rests.
use jet3_rs.Common.{
  ℕ, zero, suc, ◌<◌, ◌≡◌, refl, arith, List, [], ◌∷◌, length, drop, min, ◌⊎◌, ◌↔◌, inl, inr, ap,
}
use jet3_rs.Index.Order.{Before, Before-irrefl}

-- The block, and the count: the length of the list, or `k + 1` where the list is longer than a block.
abbrev pub block : ℕ → List ℕ → List ℕ
block zero xs = []
block (suc k) [] = 0 ∷ block k []
block (suc k) (x ∷ xs) = x ∷ block k xs

abbrev pub count : ℕ → List ℕ → ℕ
count k xs = min (length xs) (suc k)

pub length-block : (k : ℕ) (xs : List ℕ) → length (block k xs) ≡ k
length-block zero xs = refl
length-block (suc k) [] = ap suc (length-block k [])
length-block (suc k) (x ∷ xs) = ap suc (length-block k xs)

not-Before_zeros : (k : ℕ) (xs : List ℕ) → ¬ Before (block k xs) (block k [])
not-Before_zeros zero xs p = elim p [ ]
not-Before_zeros (suc k) [] (inl p) = absurd (omega arith)
not-Before_zeros (suc k) [] (inr p) = not-Before_zeros k [] p.1
not-Before_zeros (suc k) (x ∷ xs) (inl p) = absurd (omega arith)
not-Before_zeros (suc k) (x ∷ xs) (inr p) = not-Before_zeros k xs p.1

zeros_first : (k : ℕ) (xs : List ℕ) → Before (block k []) (block k xs) ⊎ (block k [] ≡ block k xs)
zeros_first zero xs = inr refl
zeros_first (suc k) [] = inr refl
zeros_first (suc k) (zero ∷ xs) = elim (zeros_first k xs) [
  | inl p ↦ inl (inr (refl, p))
  | inr e ↦ inr (ap (λ t. 0 ∷ t) e)
]
zeros_first (suc k) (suc x ∷ xs) = inl (inl (omega arith))

-- What decides between two lists: their blocks, then their counts, then what lies behind the blocks.
abbrev pub BlockBefore : ℕ → List ℕ → List ℕ → Type 0
BlockBefore k xs ys =
    Before (block k xs) (block k ys)
    ⊎ ((block k xs ≡ block k ys)
        × ((count k xs < count k ys)
            ⊎ ((count k xs ≡ count k ys) × Before (drop k xs) (drop k ys))))

pub Before-block : (k : ℕ) (xs ys : List ℕ) → Before xs ys ↔ BlockBefore k xs ys
Before-block zero [] [] = (λ p. absurd p, λ p. ground arith)
Before-block zero [] (y ∷ ys) = (λ p. inr (refl, inl (omega arith)), λ p. tt)
Before-block zero (x ∷ xs) [] = (λ p. absurd p, λ p. ground arith)
Before-block zero (x ∷ xs) (y ∷ ys) = (λ p. ground arith, λ p. ground arith)
Before-block (suc k) [] [] = (
  λ p. absurd p,
  λ p. elim p [
    | inl q ↦ Before-irrefl (block (suc k) []) q
    | inr (same, inl q) ↦ absurd (omega arith)
    | inr (same, inr q) ↦ q.1
  ],
)
Before-block (suc k) [] (y ∷ ys) = (
  λ p. elim (zeros_first (suc k) (y ∷ ys)) [ inl q ↦ inl q | inr e ↦ inr (e, inl (omega arith)) ],
  λ p. tt,
)
Before-block (suc k) (x ∷ xs) [] = (
  λ p. absurd p,
  λ p. elim p [
    | inl q ↦ not-Before_zeros (suc k) (x ∷ xs) q
    | inr (same, inl q) ↦ absurd (omega arith)
    | inr (same, inr q) ↦ absurd (omega arith)
  ],
)
Before-block (suc k) (x ∷ xs) (y ∷ ys) =
    let rest = Before-block k xs ys in (λ p. ground (arith, rest), λ p. ground (arith, rest))
