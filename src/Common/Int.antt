-- ===== src/Common/Int.antt =====
-- The integers over the native numbers, and their two's-complement words.
use Prim.Native.Nat.{ℕ, ◌+◌, ◌-◌, ◌<◌}
use mathlib.Core.Path.{◌≡◌}
use native.Mathlib.Omega.{arith}
use jet3_rs.Common.Tests.{ltb, if◌then◌else◌}

-- `negsuc n` is -(n + 1).
pub data ℤ : Type 0 where
  pos : ℕ → ℤ
  negsuc : ℕ → ℤ

infix 50 ◌<ℤ◌
abbrev pub ◌<ℤ◌ : ℤ → ℤ → Type 0
pos a <ℤ pos b = a < b
pos a <ℤ negsuc b = ⊥
negsuc a <ℤ pos b = Unit {0}
negsuc a <ℤ negsuc b = b < a

-- The signed integers of which `half` is 2 to the width less one.
abbrev pub FitsSigned : ℕ → ℤ → Type 0
FitsSigned half (pos n) = n < half
FitsSigned half (negsuc n) = n < half

-- The word that stands for an integer, and the integer that a word stands for.
abbrev pub to_word : ℕ → ℤ → ℕ
to_word half (pos n) = n
to_word half (negsuc n) = half + half - 1 - n

abbrev pub from_word : ℕ → ℕ → ℤ
from_word half w = if ltb w half then pos w else negsuc (half + half - 1 - w)

pub from_word-to_word : (half : ℕ) (z : ℤ) → FitsSigned half z → from_word half (to_word half z) ≡ z
from_word-to_word half (pos n) h = ground arith
from_word-to_word half (negsuc n) h = ground arith

pub to_word-from_word : (half w : ℕ) → w < half + half → to_word half (from_word half w) ≡ w
to_word-from_word half w h = ground arith

pub to_word-lt : (half : ℕ) (z : ℤ) → FitsSigned half z → to_word half z < half + half
to_word-lt half (pos n) h = omega arith
to_word-lt half (negsuc n) h = omega arith
