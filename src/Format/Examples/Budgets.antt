-- ===== src/Format/Examples/Budgets.antt =====
-- Budgets at concrete charges.
use jet3_rs.Common.{◌≡◌, refl, arith, List, [], ◌∷◌}
use jet3_rs.Common.Results.{done}
use jet3_rs.Format.Error.{resource_limit_exceeded, ResourceLimitKind}
use jet3_rs.Format.Limits.{ReadBudget, new_read_budget}
use jet3_rs.Format.Resource.{ResourceBudget, default_limits, new_budget, charge_items}
use jet3_rs.Format.Resource.Charges.{Charge, allocation, items, visits, charge, charge_all}
use jet3_rs.Format.Resource.Accounting.{
  IsWithin, spend, charge_all-IsWithin, charge_refused, charge-Fits,
}

abbrev small_reads : ReadBudget
small_reads =
    new_read_budget
      (record { max_input_bytes = 100; max_single_read_bytes = 10; max_total_read_bytes = 25 })

abbrev budget : ResourceBudget
budget = new_budget default_limits

abbrev some_charges : List Charge
some_charges = items 3 ∷ allocation 4_000_000_000 ∷ visits 2 ∷ []

charge_all-IsWithin_example :
    IsWithin (charge_all some_charges budget)
    × ((charge_all some_charges budget).limits ≡ default_limits)
charge_all-IsWithin_example = charge_all-IsWithin some_charges {b = budget} (record {
  allocation_within = omega arith;
  decoded_within = omega arith;
  encoded_within = omega arith;
  items_within = omega arith;
  visits_within = omega arith;
  work_within = omega arith;
  accounted = omega arith;
})

charge_refused_example : budget ≡ budget
unfolding charge charge_items
charge_refused_example =
    charge_refused (items 10_000_001) budget budget
      {e = resource_limit_exceeded ResourceLimitKind.item_work 10_000_001 10_000_000} refl

charge-Fits_example : charge (items 3) budget ≡ done tt (spend (items 3) budget)
charge-Fits_example =
    charge-Fits (items 3) budget
      (record {
        allocation_u64 = omega arith;
        decoded_u64 = omega arith;
        encoded_u64 = omega arith;
        items_u64 = omega arith;
        visits_u64 = omega arith;
        work_u64 = omega arith;
      })
      (omega arith, omega arith)
