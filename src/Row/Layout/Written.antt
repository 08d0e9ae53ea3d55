-- ===== src/Row/Layout/Written.antt =====
-- crates/jet3/src/row/reader_layout.rs and writer.rs: the whole check of a row that was written.
use jet3_rs.Common.{
  ℕ, suc, ◌+◌, ◌-◌, ◌*◌, ◌%◌, ◌≤◌, ◌≡◌, refl, sym, ap, ◌∙◌, arith, ltb, ◌==◌, if◌then◌else◌, false,
  Bool-cases, List, ◌∷◌, ◌++◌, length, get_or, inl, inr,
}
use jet3_rs.Common.Results.{Outcome, done}
use jet3_rs.Format.Resource.{ResourceBudget, charge_items, charge_work_units}
use jet3_rs.Row.Layout.{
  RowLayout, TableDefinition, div_ceil, maximum_length, stored_columns, greatest_fixed_end,
  greatest_slots, validate_variable, validate,
}
use jet3_rs.Row.Layout.Trailer.{trailer}
use jet3_rs.Row.Layout.Trailer.Jumps.{IsAscending}
use jet3_rs.Row.Layout.Trailer.Validated.{
  written_layout, written_jumps, length-row, validate_variable-trailer,
}

-- The steps of `validate` up to its part for rows with variable columns, with the tests decided.
validate-accepted :
    (definition : TableDefinition) (column_count null_len : ℕ) (fields : List ℕ)
    (s s' : ResourceBudget) {o : Outcome _ ResourceBudget RowLayout}
    → definition.storage_column_count ≤ 255
    → column_count ≤ definition.storage_column_count
    → div_ceil column_count 8 ≡ null_len
    → null_len ≤ length fields
    → 1 ≤ greatest_slots (stored_columns column_count definition.columns)
    → greatest_slots (stored_columns column_count definition.columns) ≤ 255
    → greatest_slots (stored_columns column_count definition.columns)
      ≤ definition.storage_variable_count
    → length (column_count ∷ fields) ≤ 2012
    → charge_items definition.storage_column_count s ≡ done tt s'
    → validate_variable
        (ltb (length (stored_columns column_count definition.columns)) column_count)
        (1 + null_len)
        (greatest_slots (stored_columns column_count definition.columns))
        (1 + greatest_fixed_end (stored_columns column_count definition.columns))
        column_count
        (length (column_count ∷ fields) - null_len)
        (column_count ∷ fields)
        definition
        s'
      ≡ o
    → validate (column_count ∷ fields) definition s ≡ o
unfolding validate maximum_length
validate-accepted definition column_count null_len fields s s' represented declared nulls room slots
      few stored short charged rest =
    let columns = stored_columns column_count definition.columns in
    let expected_lem : ltb 255 definition.storage_column_count ≡ false = ground arith in
    let declared_lem : ltb definition.storage_column_count column_count ≡ false = ground arith in
    let room_lem : ltb (suc (length fields)) (1 + null_len) ≡ false = ground arith in
    let slots_lem : greatest_slots columns % 256 ≡ greatest_slots columns = omega arith in
    let long_lem : (n : ℕ)
        → 1 ≤ n
        → ltb (if n == 0 then 2003 else 2012) (suc (length fields)) ≡ false =
      λ n le. ground arith in
    let limit_lem : ltb
          (if (if ltb (length columns) column_count
                then definition.storage_variable_count
                else greatest_slots columns)
              == 0
            then 2003
            else 2012)
          (suc (length fields))
        ≡ false =
      elim (Bool-cases (ltb (length columns) column_count)) [
        | inl deleted ↦ rw deleted (long_lem definition.storage_variable_count (omega arith))
        | inr live ↦ rw live (long_lem (greatest_slots columns) (omega arith))
      ] in
    let some_lem : (greatest_slots columns == 0) ≡ false = ground arith in
    rw expected_lem (
      rw declared_lem
        (rw nulls (rw room_lem (rw charged (rw slots_lem (rw limit_lem (rw some_lem rest)))))))

-- The reader accepts a row that ends in the trailer of its boundaries and a null mask, and finds the
-- layout it was written with, under these conditions. The table has at most 255 columns; the row's
-- column count is at most the table's, and its null mask has one bit for each of its columns. The
-- stored columns need at least one variable slot, and no more than the row has columns and the table
-- has variable slots. There is one boundary more than variable slots, the boundaries ascend, the first is the
-- end of the greatest fixed column and the last the end of the fields. There are as many jump bytes
-- as the row's length needs, the row has at most 2,012 bytes, and the budget grants the two charges.
pub validate-trailer :
    (definition : TableDefinition) (column_count jumps : ℕ) (fields bs nulls : List ℕ)
    (s s' s'' : ResourceBudget)
    → definition.storage_column_count ≤ 255
    → column_count ≤ definition.storage_column_count
    → length nulls ≡ div_ceil column_count 8
    → 1 ≤ greatest_slots (stored_columns column_count definition.columns)
    → greatest_slots (stored_columns column_count definition.columns) ≤ column_count
    → greatest_slots (stored_columns column_count definition.columns)
      ≤ definition.storage_variable_count
    → length bs ≡ greatest_slots (stored_columns column_count definition.columns) + 1
    → IsAscending bs
    → get_or bs 0 0 ≡ 1 + greatest_fixed_end (stored_columns column_count definition.columns)
    → get_or bs (length bs - 1) 0 ≡ length (column_count ∷ fields)
    → written_jumps (column_count ∷ fields) bs nulls ≡ jumps
    → length (column_count ∷ fields) + length bs + jumps + 1 + length nulls ≤ 2012
    → charge_items definition.storage_column_count s ≡ done tt s'
    → charge_work_units ((length bs + 2 * jumps) * jumps) s' ≡ done tt s''
    → validate ((column_count ∷ fields) ++ (trailer jumps bs ++ nulls)) definition s
      ≡ done (written_layout (column_count ∷ fields) bs jumps column_count) s''
validate-trailer definition column_count jumps fields bs nulls s s' s'' represented declared
      nulls_lem slots fits stored size ascending fixed last blocks short items units =
    let columns = stored_columns column_count definition.columns in
    let head = column_count ∷ fields in
    let behind = fields ++ (trailer jumps bs ++ nulls) in
    let count_lem : length bs - 1 ≡ greatest_slots columns = omega arith in
    let size_lem = length-row head bs nulls jumps in
    let nulls_at : length (column_count ∷ behind) - length nulls
        ≡ length head + length bs + jumps + 1 =
      omega arith in
    let work_lem : (greatest_slots columns + 1 + 2 * jumps) * jumps
        ≡ (length bs + 2 * jumps) * jumps =
      ap (λ n. (n + 2 * jumps) * jumps) (sym size) in
    validate-accepted definition column_count (length nulls) behind s s' represented declared
      (sym nulls_lem) (omega arith) slots (omega arith) stored (omega arith) items
      (rw nulls_at (
        rw count_lem (
          rw (← fixed) (
            validate_variable-trailer (ltb (length columns) column_count) (1 + length nulls)
              (get_or bs 0 0) column_count (greatest_slots columns) jumps
              (length head + length bs + jumps + 1) head bs nulls definition s' s'' size
              (omega arith) ascending (ap (λ n. get_or bs n 0) (sym count_lem) ∙ last) refl blocks
              refl stored fits (ap (λ n. charge_work_units n s') work_lem ∙ units)))))
