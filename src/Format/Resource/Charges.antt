-- ===== src/Format/Resource/Charges.antt =====
-- The six charges of a `ResourceBudget` as one operation over a data type, and sequences of them.
use jet3_rs.Common.{ℕ, List, [], ◌∷◌}
use jet3_rs.Common.Results.{Op, state_of}
use jet3_rs.Format.Error.{Error}
use jet3_rs.Format.Resource.{
  ResourceBudget, charge_allocation, charge_decoded_value, charge_encoded_bytes, charge_items,
  charge_page_visits, charge_work_units,
}

pub data Charge : Type 0 where
  allocation decoded_value encoded items visits work : ℕ → Charge

unfoldable pub charge : Charge → Op Error ResourceBudget (Unit {0})
charge (allocation n) = charge_allocation n
charge (decoded_value n) = charge_decoded_value n
charge (encoded n) = charge_encoded_bytes n
charge (items n) = charge_items n
charge (visits n) = charge_page_visits n
charge (work n) = charge_work_units n

-- The budget after a sequence of charges, where the caller goes on after a refusal.
unfoldable pub charge_all : List Charge → ResourceBudget → ResourceBudget
charge_all [] b = b
charge_all (c ∷ cs) b = charge_all cs (state_of (charge c b))
