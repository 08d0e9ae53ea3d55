-- ===== src/Format/Cursor/Reads.antt =====
-- What `read_exact` returns, when it succeeds, and what a refusal leaves.
use jet3_rs.Common.{ℕ, ◌+◌, ◌≤◌, ◌<◌, ◌^◌, ◌≡◌, ◌↔◌, arith, List, length, slice}
use jet3_rs.Common.Results.{done, fail}
use jet3_rs.Format.Error.{Error}
use jet3_rs.Format.Limits.Accounting.{ReadFits}
use jet3_rs.Format.Cursor.{BinaryCursor, read_exact}

-- The cursor stands inside its input, and lengths and limits are `u64` values.
pub record IsCursor (c : BinaryCursor) : Type 0 where
  pub inside : c.position ≤ length c.input
  pub input_u64 : length c.input < 2 ^ 64
  pub limit_u64 : c.budget.limits.max_total_read_bytes < 2 ^ 64

-- The cursor after a successful read of `count` bytes.
abbrev pub advance : ℕ → BinaryCursor → BinaryCursor
advance count c = record c {
  position = c.position + count;
  budget = record (c.budget) { total_read = c.budget.total_read + count };
}

-- For a cursor inside its input, where lengths and limits are `u64` values, a read succeeds
-- exactly when the budget allows it and the input holds all its bytes; it returns the bytes from
-- the position on, moves the position behind them, and charges them.
pub read_exact_iff :
    (count : ℕ) (c c' : BinaryCursor) (bytes : List ℕ)
    → IsCursor c
    → (read_exact count c ≡ done bytes c') ↔ (
        ReadFits c.budget count
        × (c.position + count ≤ length c.input)
        × (bytes ≡ slice c.input c.position (c.position + count))
        × (c' ≡ advance count c))
unfolding read_exact
read_exact_iff count c c' bytes v = (λ p. ground arith, λ p. ground arith)

-- For a cursor inside its input, where lengths and limits are `u64` values, a refused read leaves
-- the position, the input and the budget as they were.
pub read_exact_refused :
    (count : ℕ) (c c' : BinaryCursor) {e : Error}
    → IsCursor c
    → read_exact count c ≡ fail e c'
    → c' ≡ c
unfolding read_exact
read_exact_refused count c c' v h = ground arith
