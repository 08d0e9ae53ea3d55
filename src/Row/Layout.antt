-- ===== src/Row/Layout.antt =====
-- crates/jet3/src/row/reader_layout.rs: the layout of a row, found from its last bytes and checked against
-- the columns of its table.
pub mod Trailer
pub mod Written
pub mod Examples
use jet3_rs.Common.{
  ℕ, zero, suc, ◌+◌, ◌-◌, ◌*◌, ◌/◌, ◌%◌, ◌^◌, ltb, leb, ◌==◌, if◌then◌else◌, Bool, true, false, not,
  ◌&&◌, ◌||◌, Option, none, some, List, [], ◌∷◌, length, slice, bit_and, max,
}
use jet3_rs.Common.Bytes.{byte_at}
use jet3_rs.Common.Results.{
  Result, ok, err, Op, ◌>>=◌, ◌>>◌, lift, return, throw, refuse_if, on_error, ok_or, and_then,
}
use jet3_rs.Format.Error.{Error}
use jet3_rs.Format.Offset.{checked_sub}
use jet3_rs.Format.PageKind.{PageKind}
use jet3_rs.Format.Resource.{ResourceBudget, charge_items, charge_work_units}
use jet3_rs.Row.Directory.{RowDirectoryError, RowLocator}

-- definition/column.rs and table.rs: what the layout reads of a column and of a table. The fields are the
-- results of the methods of their names, which read the ordinal and the counts out of the raw records.
pub data ColumnPhysicalType : Type 0 where
  boolean byte integer long currency single double date_time : ColumnPhysicalType
  binary text long_binary memo guid : ColumnPhysicalType

pub data ColumnStorageClass : Type 0 where
  fixed : (offset : ℕ) → ColumnStorageClass
  variable : (index : ℕ) → ColumnStorageClass

pub record ColumnDefinition : Type 0 where
  pub storage_ordinal : ℕ
  pub physical_type : ColumnPhysicalType
  pub storage : ColumnStorageClass
  pub size : ℕ

pub record TableDefinition : Type 0 where
  pub columns : List ColumnDefinition
  pub storage_column_count : ℕ
  pub storage_variable_count : ℕ

-- All failures but the first, which wraps those of the walk over the allocation maps.
pub data RowError : Type 0 where
  directory : RowDirectoryError → RowError
  unexpected_owned_page_kind : (page : ℕ) → (actual : PageKind) → RowError
  column_count_not_representable : (count : ℕ) → RowError
  column_count_mismatch : (expected actual : ℕ) → RowError
  row_too_short : (length minimum : ℕ) → RowError
  row_too_long : (length maximum : ℕ) → RowError
  invalid_fixed_boundary : (expected actual : ℕ) → RowError
  variable_count_mismatch : (expected actual : ℕ) → RowError
  unsupported_wide_variable_offsets : (variable_count row_length : ℕ) → RowError
  invalid_variable_bounds : (index start end data_end : ℕ) → RowError
  nonzero_unused_null_bits : (raw mask : ℕ) → RowError
  invalid_overflow_target : RowLocator → RowError
  self_link : RowLocator → RowError
  cycle : RowLocator → RowError
  resource : Error → RowError

pub record RowLayout : Type 0 where
  pub fixed_boundary : ℕ
  pub offsets_start : ℕ
  pub null_start : ℕ
  pub column_count : ℕ
  pub variable_count : ℕ
  pub jumps : ℕ

-- `div_ceil`.
abbrev pub div_ceil : ℕ → ℕ → ℕ
div_ceil a b = (a + (b - 1)) / b

unfoldable pub maximum_length : ℕ → ℕ
maximum_length variable_count = if variable_count == 0 then 2003 else 2012

-- `saturating_sub` is `-`.
unfoldable pub jump_count : ℕ → ℕ
jump_count length_without_jumps = div_ceil (length_without_jumps - 256) 255

unfoldable pub stores_column : RowLayout → ℕ → Bool
stores_column layout ordinal = ltb ordinal layout.column_count

unfoldable pub jump_bytes : RowLayout → List ℕ → List ℕ
jump_bytes layout row =
    let start = layout.offsets_start + layout.variable_count + 1 in
    slice row start (start + layout.jumps)

-- `filter(..).count()`.
unfoldable pub jumps_before : ℕ → List ℕ → ℕ
jumps_before ordinal [] = 0
jumps_before ordinal (jump ∷ jumps) =
    (if not (jump == 0xff) && leb jump ordinal then 1 else 0) + jumps_before ordinal jumps

unfoldable pub boundary : RowLayout → List ℕ → ℕ → ℕ
unfolding jump_bytes jumps_before
boundary layout row ordinal =
    if ordinal == 255
    then layout.offsets_start
    else byte_at row (layout.offsets_start + (layout.variable_count - ordinal))
      + 256 * jumps_before ordinal (jump_bytes layout row)

unfoldable pub present : RowLayout → List ℕ → ℕ → Bool
present layout row storage_ordinal =
    ltb storage_ordinal layout.column_count
    && (ltb (layout.null_start + storage_ordinal / 8) (length row)
        && not (
            bit_and (byte_at row (layout.null_start + storage_ordinal / 8))
              (2 ^ (storage_ordinal % 8))
            == 0))

unfoldable pub variable_range : RowLayout → List ℕ → ℕ → Option (ℕ × ℕ)
unfolding boundary
variable_range layout row index =
    if ltb 255 index || leb layout.variable_count index
    then none
    else some (boundary layout row index, boundary layout row (index + 1))

abbrev is_boolean : ColumnPhysicalType → Bool
is_boolean ColumnPhysicalType.boolean = true
is_boolean other = false

-- The columns that a row of `column_count` columns stores.
unfoldable pub stored_columns : ℕ → List ColumnDefinition → List ColumnDefinition
stored_columns column_count [] = []
stored_columns column_count (column ∷ columns) =
    if ltb column.storage_ordinal column_count
    then column ∷ stored_columns column_count columns
    else stored_columns column_count columns

abbrev pub fixed_end : ColumnPhysicalType → ColumnStorageClass → ℕ → ℕ
fixed_end physical_type (fixed offset) size = if is_boolean physical_type then 0 else offset + size
fixed_end physical_type (variable index) size = 0

-- The greatest end of the fixed columns, and the number of variable slots they need, a `u16`: `max` of
-- no columns is 0.
unfoldable pub greatest_fixed_end : List ColumnDefinition → ℕ
greatest_fixed_end [] = 0
greatest_fixed_end (column ∷ columns) =
    max (fixed_end column.physical_type column.storage column.size) (greatest_fixed_end columns)

abbrev pub slots_of : ColumnStorageClass → ℕ
slots_of (fixed offset) = 0
slots_of (variable index) = (index + 1) % 2 ^ 16

unfoldable pub greatest_slots : List ColumnDefinition → ℕ
greatest_slots [] = 0
greatest_slots (column ∷ columns) = max (slots_of column.storage) (greatest_slots columns)

-- The loop over the variable fields, with `rounds` of them left.
unfoldable pub check_bounds : (rounds index start : ℕ) → RowLayout → List ℕ → Result RowError ℕ
check_bounds zero index start layout row = ok start
check_bounds (suc rounds) index start layout row =
    let end = boundary layout row (index + 1) in
    let rest = check_bounds rounds (index + 1) end layout row in
    if ltb end start || ltb layout.offsets_start end
    then err (invalid_variable_bounds index start end layout.offsets_start)
    else rest

-- One jump byte, which tells the first boundary from `threshold` on.
unfoldable pub valid_jump : RowLayout → List ℕ → (threshold jump : ℕ) → Bool
valid_jump layout row threshold jump =
    if jump == 0xff
    then ltb layout.offsets_start threshold
      || (layout.variable_count == 255 && ltb (boundary layout row 254) threshold)
    else leb jump layout.variable_count
      && (leb threshold (boundary layout row jump)
          && (jump == 0 || ltb (boundary layout row (jump - 1)) threshold))

unfoldable pub check_jumps :
    RowLayout → List ℕ → (position : ℕ) → List ℕ → Result RowError (Unit {0})
check_jumps layout row position [] = ok tt
check_jumps layout row position (jump ∷ jumps) =
    if valid_jump layout row (256 * (layout.jumps - position)) jump
    then check_jumps layout row (position + 1) jumps
    else err (unsupported_wide_variable_offsets layout.variable_count (length row))

-- The checks behind the layout of a row with variable columns.
unfoldable pub check_layout : (deleted : Bool) → RowLayout → List ℕ → Result RowError RowLayout
unfolding check_bounds check_jumps
check_layout deleted layout row =
    let count = layout.variable_count in
    let start = layout.offsets_start in
    let low = byte_at row start in
    let actual_fixed = boundary layout row 0 in
    if count == 255 && not (low == start % 256)
    then err (invalid_variable_bounds (count - 1) low start start)
    else if ltb actual_fixed layout.fixed_boundary
        || (not deleted && not (actual_fixed == layout.fixed_boundary))
    then err (invalid_fixed_boundary layout.fixed_boundary actual_fixed)
    else and_then (check_bounds count 0 actual_fixed layout row) λ reached.
      if not (reached == start)
      then err (invalid_variable_bounds (count - 1) reached start start)
      else and_then (check_jumps layout row 0 (jump_bytes layout row)) λ checked. ok layout

-- The part of `validate` for rows with variable columns, from the position of their count on.
unfoldable pub validate_variable :
    (deleted : Bool)
    → (minimum minimum_variables fixed_boundary column_count null_start : ℕ) → List ℕ
    → TableDefinition
    → Op RowError ResourceBudget RowLayout
unfolding jump_count
validate_variable deleted minimum minimum_variables fixed_boundary column_count null_start row
      definition =
    do
      count_position ←
          lift (ok_or (checked_sub null_start 1) (row_too_short (length row) (minimum + 1)))
      let variable_count = byte_at row count_position
      refuse_if
          (ltb variable_count minimum_variables
            || (ltb definition.storage_variable_count variable_count
                || (ltb column_count variable_count
                    || (not deleted && not (variable_count == minimum_variables)))))
          (variable_count_mismatch minimum_variables variable_count)
      let jumps = (length row - 1) / 256
      refuse_if (not (jump_count (length row - jumps) == jumps))
          (unsupported_wide_variable_offsets variable_count (length row))
      let trailer = variable_count + 1 + jumps
      offsets_start ← lift (
          ok_or (checked_sub count_position trailer)
            (row_too_short (length row) (minimum + 1 + trailer)))
      λ s. on_error resource (charge_work_units ((variable_count + 1 + 2 * jumps) * jumps) s)
      lift (
          check_layout deleted
            (record {
              fixed_boundary = fixed_boundary;
              offsets_start = offsets_start;
              null_start = null_start;
              column_count = column_count;
              variable_count = variable_count;
              jumps = jumps;
            })
            row)

-- `u8::try_from`.
abbrev pub to_u8 : ℕ → Option ℕ
to_u8 n = if ltb 255 n then none else some n

abbrev pub first_byte : List ℕ → Option ℕ
first_byte [] = none
first_byte (b ∷ bs) = some b

-- A row whose columns need no variable slot.
unfoldable pub fixed_layout :
    (deleted : Bool) → (fixed_boundary column_count null_start : ℕ) → Result RowError RowLayout
fixed_layout deleted fixed_boundary column_count null_start =
    if ltb null_start fixed_boundary
      || (not deleted
          && (not (null_start == fixed_boundary) && not (null_start == max fixed_boundary 3)))
    then err (invalid_fixed_boundary fixed_boundary null_start)
    else ok (record {
      fixed_boundary = fixed_boundary;
      offsets_start = null_start;
      null_start = null_start;
      column_count = column_count;
      variable_count = 0;
      jumps = 0;
    })

unfoldable pub validate : List ℕ → TableDefinition → Op RowError ResourceBudget RowLayout
unfolding validate_variable fixed_layout maximum_length stored_columns greatest_fixed_end
    greatest_slots
validate row definition = do
  expected ← lift (
      ok_or (to_u8 definition.storage_column_count)
        (column_count_not_representable definition.storage_column_count))
  column_count ← lift (ok_or (first_byte row) (row_too_short 0 1))
  refuse_if (ltb expected column_count) (column_count_mismatch expected column_count)
  let columns = stored_columns column_count definition.columns
  let null_len = div_ceil column_count 8
  let minimum = 1 + null_len
  refuse_if (ltb (length row) minimum) (row_too_short (length row) minimum)
  λ s. on_error resource (charge_items expected s)
  let deleted = ltb (length columns) column_count
  let fixed_boundary = 1 + greatest_fixed_end columns
  let minimum_variables = greatest_slots columns % 256
  let maximum =
      maximum_length (if deleted then definition.storage_variable_count else minimum_variables)
  refuse_if (ltb maximum (length row)) (row_too_long (length row) maximum)
  let null_start = length row - null_len
  if minimum_variables == 0
      then lift (fixed_layout deleted fixed_boundary column_count null_start)
      else validate_variable deleted minimum minimum_variables fixed_boundary column_count
          null_start row definition
