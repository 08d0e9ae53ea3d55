-- ===== src/Format/Writer/Writes.antt =====
-- What `write_exact` changes, when it succeeds, and what a refusal leaves.
use jet3_rs.Common.{ℕ, ◌+◌, ◌≤◌, ◌<◌, ◌^◌, ◌≡◌, ◌↔◌, arith, List, length, copy_at}
use jet3_rs.Common.Results.{done, fail}
use jet3_rs.Format.Error.{Error}
use jet3_rs.Format.Resource.{charge_encoded_bytes}
use jet3_rs.Format.Resource.Charges.{encoded}
use jet3_rs.Format.Resource.Accounting.{Fits, spend, HasU64Limits}
use jet3_rs.Format.Writer.{BinaryWriter, write_exact}

-- The writer stands inside its output, and lengths and limits are `u64` values.
pub record IsWriter (w : BinaryWriter) : Type 0 where
  pub same_capacity : w.capacity ≡ length w.output
  pub inside : w.position ≤ w.capacity
  pub capacity_u64 : w.capacity < 2 ^ 64
  pub limits_u64 : HasU64Limits w.budget.limits

-- The writer after a successful write.
abbrev pub written : List ℕ → BinaryWriter → BinaryWriter
written bytes w = record w {
  output = copy_at w.output w.position bytes;
  position = w.position + length bytes;
  budget = spend (encoded (length bytes)) w.budget;
}

-- For a writer inside its output, where lengths and limits are `u64` values, a write succeeds
-- exactly when the bytes fit the output behind the position and the budget allows them; it then
-- copies the bytes there, moves the position behind them and charges them.
pub write_exact_iff :
    (bytes : List ℕ) (w w' : BinaryWriter)
    → IsWriter w
    → (write_exact bytes w ≡ done tt w') ↔ (
        (w.position + length bytes ≤ w.capacity)
        × Fits (encoded (length bytes)) w.budget
        × (w' ≡ written bytes w))
unfolding write_exact charge_encoded_bytes
write_exact_iff bytes w w' v = (λ p. ground arith, λ p. ground arith)

-- For a writer inside its output, where lengths and limits are `u64` values, a refused write
-- leaves the output, the position and the budget as they were.
pub write_exact_refused :
    (bytes : List ℕ) (w w' : BinaryWriter) {e : Error}
    → IsWriter w
    → write_exact bytes w ≡ fail e w'
    → w' ≡ w
unfolding write_exact charge_encoded_bytes
write_exact_refused bytes w w' v h = ground arith
