-- ===== src/Format/Limits/Accounting.antt =====
-- What a read charge does to a `ReadBudget`.
use jet3_rs.Common.{ℕ, ◌+◌, ◌≤◌, ◌<◌, ◌^◌, ◌≡◌, ◌↔◌, arith}
use jet3_rs.Common.Results.{done, fail}
use jet3_rs.Format.Error.{Error}
use jet3_rs.Format.Limits.{ReadBudget, charge_read_attempt}

-- A read of `count` bytes is inside both limits of the policy.
abbrev pub ReadFits : ReadBudget → ℕ → Type 0
ReadFits b count =
    (count ≤ b.limits.max_single_read_bytes)
    × (b.total_read + count ≤ b.limits.max_total_read_bytes)

-- Where the total limit is a `u64`, a read charge succeeds exactly when the read is inside both
-- limits, and it then adds the count to the total and changes nothing else.
pub charge_read_attempt_iff :
    (count : ℕ) (b b' : ReadBudget)
    → b.limits.max_total_read_bytes < 2 ^ 64
    → (charge_read_attempt count b ≡ done tt b')
      ↔ (ReadFits b count × (b' ≡ record b { total_read = b.total_read + count }))
unfolding charge_read_attempt
charge_read_attempt_iff count b b' h = (λ p. ground arith, λ p. ground arith)

-- A refused read charge leaves the budget as it was.
pub charge_read_attempt_refused :
    (count : ℕ) (b b' : ReadBudget) {e : Error} → charge_read_attempt count b ≡ fail e b' → b' ≡ b
unfolding charge_read_attempt
charge_read_attempt_refused count b b' h = ground arith
