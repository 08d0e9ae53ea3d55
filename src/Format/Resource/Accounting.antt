-- ===== src/Format/Resource/Accounting.antt =====
-- What the charges do to a `ResourceBudget`, one by one and in any sequence.
use jet3_rs.Common.{◌+◌, ◌≤◌, ◌<◌, ◌^◌, ◌≡◌, refl, ◌∙◌, arith, List, [], ◌∷◌}
use jet3_rs.Common.Results.{done, fail, state_of}
use jet3_rs.Format.Error.{Error}
use jet3_rs.Format.Resource.{
  ResourceLimits, ResourceBudget, charge_allocation, charge_decoded_value, charge_encoded_bytes,
  charge_items, charge_page_visits, charge_work_units,
}
use jet3_rs.Format.Resource.Charges.{
  Charge, allocation, decoded_value, encoded, items, visits, work, charge, charge_all,
}

-- Every counter is inside its limit, and the aggregate covers all the other counters.
pub record IsWithin (b : ResourceBudget) : Type 0 where
  pub allocation_within : b.allocation_bytes ≤ b.limits.max_allocation_bytes
  pub decoded_within : b.decoded_bytes ≤ b.limits.max_total_decoded_bytes
  pub encoded_within : b.encoded_bytes ≤ b.limits.max_encoded_bytes
  pub items_within : b.item_work ≤ b.limits.max_item_work
  pub visits_within : b.page_visits ≤ b.limits.max_page_visits
  pub work_within : b.total_work_units ≤ b.limits.max_total_work_units
  pub accounted :
      b.allocation_bytes + b.decoded_bytes + b.encoded_bytes + b.item_work + b.page_visits
      ≤ b.total_work_units

charge-IsWithin : (c : Charge) {b : ResourceBudget} → IsWithin b → IsWithin (state_of (charge c b))
unfolding charge charge_allocation charge_decoded_value charge_encoded_bytes charge_items
    charge_page_visits charge_work_units
charge-IsWithin (allocation n) h = ground arith
charge-IsWithin (decoded_value n) h = ground arith
charge-IsWithin (encoded n) h = ground arith
charge-IsWithin (items n) h = ground arith
charge-IsWithin (visits n) h = ground arith
charge-IsWithin (work n) h = ground arith

charge-limits : (c : Charge) (b : ResourceBudget) → ((state_of (charge c b)).limits ≡ b.limits)
unfolding charge charge_allocation charge_decoded_value charge_encoded_bytes charge_items
    charge_page_visits charge_work_units
charge-limits (allocation n) b = ground arith
charge-limits (decoded_value n) b = ground arith
charge-limits (encoded n) b = ground arith
charge-limits (items n) b = ground arith
charge-limits (visits n) b = ground arith
charge-limits (work n) b = ground arith

-- Over any sequence of charges, refused ones among them, a budget that is inside its limits stays
-- inside them, its aggregate covers the sum of the other counters, and the limits never change.
pub charge_all-IsWithin :
    (cs : List Charge) {b : ResourceBudget}
    → IsWithin b
    → IsWithin (charge_all cs b) × ((charge_all cs b).limits ≡ b.limits)
unfolding charge_all
charge_all-IsWithin [] h = (h, refl)
charge_all-IsWithin (c ∷ cs) {b} h =
    let (within, same) = charge_all-IsWithin cs (charge-IsWithin c h) in
    (within, same ∙ charge-limits c b)

-- A refused charge leaves every counter as it was.
pub charge_refused :
    (c : Charge) (b b' : ResourceBudget) {e : Error} → charge c b ≡ fail e b' → b' ≡ b
unfolding charge charge_allocation charge_decoded_value charge_encoded_bytes charge_items
    charge_page_visits charge_work_units
charge_refused (allocation n) b b' h = ground arith
charge_refused (decoded_value n) b b' h = ground arith
charge_refused (encoded n) b b' h = ground arith
charge_refused (items n) b b' h = ground arith
charge_refused (visits n) b b' h = ground arith
charge_refused (work n) b b' h = ground arith

-- The charge fits the limit of its own dimension and the aggregate's.
abbrev pub Fits : Charge → ResourceBudget → Type 0
Fits (allocation n) b =
    (b.allocation_bytes + n ≤ b.limits.max_allocation_bytes)
    × (b.total_work_units + n ≤ b.limits.max_total_work_units)
Fits (decoded_value n) b =
    (n ≤ b.limits.max_decoded_value_bytes)
    × (b.decoded_bytes + n ≤ b.limits.max_total_decoded_bytes)
    × (b.total_work_units + n ≤ b.limits.max_total_work_units)
Fits (encoded n) b =
    (b.encoded_bytes + n ≤ b.limits.max_encoded_bytes)
    × (b.total_work_units + n ≤ b.limits.max_total_work_units)
Fits (items n) b =
    (b.item_work + n ≤ b.limits.max_item_work)
    × (b.total_work_units + n ≤ b.limits.max_total_work_units)
Fits (visits n) b =
    (b.page_visits + n ≤ b.limits.max_page_visits)
    × (b.total_work_units + n ≤ b.limits.max_total_work_units)
Fits (work n) b = b.total_work_units + n ≤ b.limits.max_total_work_units

-- The budget that has paid for the charge.
abbrev pub spend : Charge → ResourceBudget → ResourceBudget
spend (allocation n) b = record b {
  allocation_bytes = b.allocation_bytes + n;
  total_work_units = b.total_work_units + n;
}
spend (decoded_value n) b = record b {
  decoded_bytes = b.decoded_bytes + n;
  total_work_units = b.total_work_units + n;
}
spend (encoded n) b = record b {
  encoded_bytes = b.encoded_bytes + n;
  total_work_units = b.total_work_units + n;
}
spend (items n) b = record b {
  item_work = b.item_work + n;
  total_work_units = b.total_work_units + n;
}
spend (visits n) b = record b {
  page_visits = b.page_visits + n;
  total_work_units = b.total_work_units + n;
}
spend (work n) b = record b { total_work_units = b.total_work_units + n }

-- The limits are `u64` values.
pub record HasU64Limits (l : ResourceLimits) : Type 0 where
  pub allocation_u64 : l.max_allocation_bytes < 2 ^ 64
  pub decoded_u64 : l.max_total_decoded_bytes < 2 ^ 64
  pub encoded_u64 : l.max_encoded_bytes < 2 ^ 64
  pub items_u64 : l.max_item_work < 2 ^ 64
  pub visits_u64 : l.max_page_visits < 2 ^ 64
  pub work_u64 : l.max_total_work_units < 2 ^ 64

-- Where the limits are `u64` values, a charge that fits succeeds, and the budget after it is the
-- one that has paid for the charge: no sum overflows.
pub charge-Fits :
    (c : Charge) (b : ResourceBudget)
    → HasU64Limits b.limits
    → Fits c b
    → charge c b ≡ done tt (spend c b)
unfolding charge charge_allocation charge_decoded_value charge_encoded_bytes charge_items
    charge_page_visits charge_work_units
charge-Fits (allocation n) b u h = ground arith
charge-Fits (decoded_value n) b u h = ground arith
charge-Fits (encoded n) b u h = ground arith
charge-Fits (items n) b u h = ground arith
charge-Fits (visits n) b u h = ground arith
charge-Fits (work n) b u h = ground arith

-- A charge that succeeds did fit, and the budget after it has paid for the charge.
pub charge_done :
    (c : Charge) (b b' : ResourceBudget) → charge c b ≡ done tt b' → Fits c b × (b' ≡ spend c b)
unfolding charge charge_allocation charge_decoded_value charge_encoded_bytes charge_items
    charge_page_visits charge_work_units
charge_done (allocation n) b b' h = ground arith
charge_done (decoded_value n) b b' h = ground arith
charge_done (encoded n) b b' h = ground arith
charge_done (items n) b b' h = ground arith
charge_done (visits n) b b' h = ground arith
charge_done (work n) b b' h = ground arith
