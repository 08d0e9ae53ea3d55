-- ===== src/Common/Ranges.antt =====
-- What holds of each number of a range, as a product that a loop over the range takes apart; and
-- whether two numbers are the same.
use Prim.Native.Nat.{ℕ, zero, suc, ◌+◌, ◌≤◌, ◌<◌}
use mathlib.Core.Path.{◌≡◌, subst}
use mathlib.Core.Logic.{◌⊎◌, inl, inr}
use native.Mathlib.Decide.{dec_lt}
use native.Mathlib.Omega.{arith}

module _ {ℓ} (P : ℕ → Type ℓ) where
  -- Of `left` numbers from `from` on.
  abbrev pub AllFrom : ℕ → ℕ → Type ℓ
  AllFrom zero from = Unit {ℓ}
  AllFrom (suc left) from = P from × AllFrom left (suc from)

  pub AllFrom-at : (left from k : ℕ) → AllFrom left from → from ≤ k → k < from + left → P k
  AllFrom-at zero from k h lo hi = absurd (omega arith)
  AllFrom-at (suc left) from k h lo hi = elim (dec_lt from k) [
    | yes p ↦ AllFrom-at left (suc from) k h.1 p (omega arith)
    | no p ↦ let e : from ≡ k = omega arith in subst P e h.0
  ]

  pub AllFrom-all : (left from : ℕ) → ((k : ℕ) → k < from + left → P k) → AllFrom left from
  AllFrom-all zero from h = tt
  AllFrom-all (suc left) from h =
      (h from (omega arith), AllFrom-all left (suc from) (λ k p. h k (omega arith)))

pub same_or_apart : (a b : ℕ) → (a ≡ b) ⊎ ¬ (a ≡ b)
same_or_apart a b = elim (dec_lt a b) [
  | yes p ↦ inr (λ e. absurd (omega arith))
  | no p ↦ elim (dec_lt b a) [ yes q ↦ inr (λ e. absurd (omega arith)) | no q ↦ inl (omega arith) ]
]
