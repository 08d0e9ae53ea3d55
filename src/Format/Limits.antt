-- ===== src/Format/Limits.antt =====
-- crates/jet3/src/format/limits.rs: the limits on reads and the budget that accounts for them.
pub mod Accounting
use jet3_rs.Common.{◌*◌, ltb, if◌then◌else◌}
use jet3_rs.Common.Results.{Result, ok, err, Op, ◌>>=◌, ◌>>◌, get, put, lift, and_then}
use jet3_rs.Format.Error.{Error, limit_exceeded, input_bytes, single_read_bytes, total_read_bytes}
use jet3_rs.Format.Offset.{ByteCount, count_add}

pub record ReadLimits : Type 0 where
  pub max_input_bytes : ByteCount
  pub max_single_read_bytes : ByteCount
  pub max_total_read_bytes : ByteCount

abbrev pub default_read_limits : ReadLimits
default_read_limits = record {
  max_input_bytes = 256 * 1024 * 1024;
  max_single_read_bytes = 16 * 1024 * 1024;
  max_total_read_bytes = 512 * 1024 * 1024;
}

pub record ReadBudget : Type 0 where
  pub limits : ReadLimits
  pub total_read : ByteCount

abbrev pub new_read_budget : ReadLimits → ReadBudget
new_read_budget limits = record { limits = limits; total_read = 0 }

unfoldable pub check_input : ReadBudget → ByteCount → Result Error (Unit {0})
check_input budget input_len =
    if ltb budget.limits.max_input_bytes input_len
    then err (limit_exceeded input_bytes input_len budget.limits.max_input_bytes)
    else ok tt

unfoldable pub check_read : ReadBudget → ByteCount → Result Error (Unit {0})
unfolding count_add
check_read budget count =
    if ltb budget.limits.max_single_read_bytes count
    then err (limit_exceeded single_read_bytes count budget.limits.max_single_read_bytes)
    else and_then (count_add budget.total_read count) λ next_total.
      if ltb budget.limits.max_total_read_bytes next_total
      then err (limit_exceeded total_read_bytes next_total budget.limits.max_total_read_bytes)
      else ok tt

unfoldable pub charge_read_attempt : ByteCount → Op Error ReadBudget (Unit {0})
unfolding check_read count_add
charge_read_attempt count = do
  budget ← get
  lift (check_read budget count)
  next_total ← lift (count_add budget.total_read count)
  put (record budget { total_read = next_total })
