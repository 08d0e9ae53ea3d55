-- ===== src/Row/Layout/Examples.antt =====
-- A row of three columns, a Long and two variable ones, that is longer than one block of 256 bytes.
use jet3_rs.Common.{ℕ, ◌≡◌, refl, arith, some, List, [], ◌∷◌, ◌++◌, replicate}
use jet3_rs.Common.Results.{done}
use jet3_rs.Format.Resource.{
  ResourceBudget, charge_items, charge_work_units, default_limits, new_budget,
}
use jet3_rs.Format.Resource.Charges.{items, work}
use jet3_rs.Format.Resource.Accounting.{spend}
use jet3_rs.Row.Layout.{
  ColumnPhysicalType, fixed, variable, TableDefinition, validate, variable_range, stored_columns,
  greatest_slots, greatest_fixed_end, jump_count,
}
use jet3_rs.Row.Layout.Trailer.{trailer}
use jet3_rs.Row.Layout.Trailer.Validated.{written_layout, written_jumps, variable_range-trailer}
use jet3_rs.Row.Layout.Written.{validate-trailer}

abbrev definition : TableDefinition
definition = record {
  columns =
      record {
        storage_ordinal = 0;
        physical_type = ColumnPhysicalType.long;
        storage = fixed 0;
        size = 4;
      }
      ∷ record {
        storage_ordinal = 1;
        physical_type = ColumnPhysicalType.text;
        storage = variable 0;
        size = 250;
      }
      ∷ record {
        storage_ordinal = 2;
        physical_type = ColumnPhysicalType.binary;
        storage = variable 1;
        size = 100;
      }
      ∷ [];
  storage_column_count = 3;
  storage_variable_count = 2;
}

abbrev fields : List ℕ
fields = replicate 4 9 ++ replicate 290 7

abbrev boundaries : List ℕ
boundaries = 5 ∷ 205 ∷ 295 ∷ []

abbrev budget : ResourceBudget
budget = new_budget default_limits

abbrev read_items : ResourceBudget
read_items = spend (items 3) budget

abbrev read_jumps : ResourceBudget
read_jumps = spend (work 5) read_items

items_charged : charge_items 3 budget ≡ done tt read_items
unfolding charge_items
items_charged = refl

work_charged : charge_work_units 5 read_items ≡ done tt read_jumps
unfolding charge_work_units
work_charged = refl

slots : greatest_slots (stored_columns 3 definition.columns) ≡ 2
unfolding greatest_slots stored_columns
slots = refl

fixed_size : greatest_fixed_end (stored_columns 3 definition.columns) ≡ 4
unfolding greatest_fixed_end stored_columns
fixed_size = refl

jumps_of_row : written_jumps (3 ∷ fields) boundaries (7 ∷ []) ≡ 1
unfolding jump_count
jumps_of_row = refl

validate-trailer_example :
    validate ((3 ∷ fields) ++ (trailer 1 boundaries ++ (7 ∷ []))) definition budget
    ≡ done (written_layout (3 ∷ fields) boundaries 1 3) read_jumps
validate-trailer_example =
    validate-trailer definition 3 1 fields boundaries (7 ∷ []) budget read_items read_jumps
      (omega arith) (omega arith) refl (rw slots (omega arith)) (rw slots (omega arith))
      (rw slots (omega arith)) (rw slots refl)
      ((omega arith, (omega arith, tt)), ((omega arith, tt), (tt, tt))) (rw fixed_size refl) refl
      jumps_of_row (omega arith) items_charged work_charged

variable_range-trailer_example :
    variable_range
      (written_layout (3 ∷ fields) boundaries 1 3)
      ((3 ∷ fields) ++ (trailer 1 boundaries ++ (7 ∷ [])))
      1
    ≡ some (205, 295)
variable_range-trailer_example =
    variable_range-trailer (3 ∷ fields) boundaries (7 ∷ []) 1 3 2 1 refl (omega arith)
      ((omega arith, (omega arith, tt)), ((omega arith, tt), (tt, tt))) refl jumps_of_row
      (omega arith)
