-- ===== src/Format/Resource.antt =====
-- crates/jet3/src/format/resource.rs: the operation-wide limits and their cumulative accounting.
-- `grow` and `reserve`, which act on a `Vec` and the allocator, are not here.
pub mod Charges
pub mod Accounting
use jet3_rs.Common.{ℕ, String, ltb, if◌then◌else◌}
use jet3_rs.Common.Results.{Result, ok, err, Op, ◌>>=◌, ◌>>◌, get, put, lift, and_then, ok_or}
use jet3_rs.Format.Error.{Error, ResourceLimitKind, arithmetic, resource_limit_exceeded}
use jet3_rs.Format.Offset.{ByteCount, checked_add}
use jet3_rs.Format.Limits.{ReadLimits, ReadBudget, new_read_budget, default_read_limits}

pub record ResourceLimits : Type 0 where
  pub read : ReadLimits
  pub max_allocation_bytes : ByteCount
  pub max_decoded_value_bytes : ByteCount
  pub max_total_decoded_bytes : ByteCount
  pub max_encoded_bytes : ByteCount
  pub max_item_work : ℕ
  pub max_page_visits : ℕ
  pub max_chain_depth : ℕ
  pub max_total_work_units : ℕ

-- `ResourceLimits::new`: the documented defaults beside the given read limits.
abbrev pub new_limits : ReadLimits → ResourceLimits
new_limits read = record {
  read = read;
  max_allocation_bytes = 268_435_456;
  max_decoded_value_bytes = 16_777_216;
  max_total_decoded_bytes = 268_435_456;
  max_encoded_bytes = 268_435_456;
  max_item_work = 10_000_000;
  max_page_visits = 10_000_000;
  max_chain_depth = 4_096;
  max_total_work_units = 1_000_000_000;
}

abbrev pub default_limits : ResourceLimits
default_limits = new_limits default_read_limits

pub record ResourceBudget : Type 0 where
  pub limits : ResourceLimits
  pub read : ReadBudget
  pub allocation_bytes : ByteCount
  pub decoded_bytes : ByteCount
  pub encoded_bytes : ByteCount
  pub item_work : ℕ
  pub page_visits : ℕ
  pub total_work_units : ℕ

-- `ResourceBudget::new`.
abbrev pub new_budget : ResourceLimits → ResourceBudget
new_budget limits = record {
  limits = limits;
  read = new_read_budget limits.read;
  allocation_bytes = 0;
  decoded_bytes = 0;
  encoded_bytes = 0;
  item_work = 0;
  page_visits = 0;
  total_work_units = 0;
}

check_limit : ResourceLimitKind → ℕ → ℕ → Result Error (Unit {0})
check_limit kind requested maximum =
    if ltb maximum requested then err (resource_limit_exceeded kind requested maximum) else ok tt

checked_total : ℕ → ℕ → ResourceLimitKind → ℕ → String → Result Error ℕ
unfolding check_limit
checked_total current amount kind maximum operation =
    and_then (ok_or (checked_add current amount) (arithmetic operation))
      λ requested. and_then (check_limit kind requested maximum) λ _. ok requested

checked_work_add : ResourceBudget → ℕ → Result Error ℕ
unfolding checked_total
checked_work_add budget units =
    checked_total budget.total_work_units units ResourceLimitKind.total_work_units
      budget.limits.max_total_work_units "accumulate total work units"

unfoldable pub check_decoded_value : ResourceBudget → ByteCount → Result Error (Unit {0})
unfolding check_limit
check_decoded_value budget bytes =
    check_limit ResourceLimitKind.decoded_value_bytes bytes budget.limits.max_decoded_value_bytes

unfoldable pub check_chain_depth : ResourceBudget → ℕ → Result Error (Unit {0})
unfolding check_limit
check_chain_depth budget depth =
    check_limit ResourceLimitKind.chain_depth depth budget.limits.max_chain_depth

unfoldable pub charge_allocation : ByteCount → Op Error ResourceBudget (Unit {0})
unfolding checked_total checked_work_add
charge_allocation bytes = do
  budget ← get
  next ← lift (
      checked_total budget.allocation_bytes bytes ResourceLimitKind.allocation_bytes
        budget.limits.max_allocation_bytes "accumulate allocation bytes")
  next_work ← lift (checked_work_add budget bytes)
  put (record budget { allocation_bytes = next; total_work_units = next_work })

unfoldable pub charge_decoded_value : ByteCount → Op Error ResourceBudget (Unit {0})
unfolding checked_total checked_work_add check_decoded_value
charge_decoded_value bytes = do
  budget ← get
  lift (check_decoded_value budget bytes)
  next ← lift (
      checked_total budget.decoded_bytes bytes ResourceLimitKind.total_decoded_bytes
        budget.limits.max_total_decoded_bytes "accumulate decoded bytes")
  next_work ← lift (checked_work_add budget bytes)
  put (record budget { decoded_bytes = next; total_work_units = next_work })

unfoldable pub charge_encoded_bytes : ByteCount → Op Error ResourceBudget (Unit {0})
unfolding checked_total checked_work_add
charge_encoded_bytes bytes = do
  budget ← get
  next ← lift (
      checked_total budget.encoded_bytes bytes ResourceLimitKind.encoded_bytes
        budget.limits.max_encoded_bytes "accumulate encoded bytes")
  next_work ← lift (checked_work_add budget bytes)
  put (record budget { encoded_bytes = next; total_work_units = next_work })

unfoldable pub charge_items : ℕ → Op Error ResourceBudget (Unit {0})
unfolding checked_total checked_work_add
charge_items count = do
  budget ← get
  next ← lift (
      checked_total budget.item_work count ResourceLimitKind.item_work budget.limits.max_item_work
        "accumulate item work")
  next_work ← lift (checked_work_add budget count)
  put (record budget { item_work = next; total_work_units = next_work })

unfoldable pub charge_page_visits : ℕ → Op Error ResourceBudget (Unit {0})
unfolding checked_total checked_work_add
charge_page_visits count = do
  budget ← get
  next ← lift (
      checked_total budget.page_visits count ResourceLimitKind.page_visits
        budget.limits.max_page_visits "accumulate page visits")
  next_work ← lift (checked_work_add budget count)
  put (record budget { page_visits = next; total_work_units = next_work })

unfoldable pub charge_work_units : ℕ → Op Error ResourceBudget (Unit {0})
unfolding checked_work_add
charge_work_units units = do
  budget ← get
  next ← lift (checked_work_add budget units)
  put (record budget { total_work_units = next })
