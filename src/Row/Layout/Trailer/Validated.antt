-- ===== src/Row/Layout/Trailer/Validated.antt =====
-- crates/jet3/src/row/writer.rs and reader_layout.rs: the reader finds the layout of the rows that the
-- writer writes.
use jet3_rs.Common.{
  ℕ, ◌+◌, ◌-◌, ◌*◌, ◌/◌, ◌%◌, ◌≤◌, ◌<◌, ◌≡◌, refl, sym, ap, ◌∙◌, arith, ltb, leb, ◌==◌, Bool, true,
  false, not, ◌&&◌, ◌||◌, some, List, [], ◌∷◌, ◌++◌, length, length-append, get_or,
}
use jet3_rs.Common.Bytes.{byte_at}
use jet3_rs.Common.Pieces.{byte_at-append_right}
use jet3_rs.Common.Results.{ok, done}
use jet3_rs.Format.Resource.{ResourceBudget, charge_work_units}
use jet3_rs.Row.Layout.{
  RowLayout, TableDefinition, boundary, variable_range, jump_bytes, jump_count, check_bounds,
  check_jumps, check_layout, validate_variable,
}
use jet3_rs.Row.Layout.Trailer.{write_jumps, trailer, low_bytes}
use jet3_rs.Row.Layout.Trailer.Jumps.{IsAscending, length-write_jumps}
use jet3_rs.Row.Layout.Trailer.Boundaries.{
  boundary-trailer, jump_bytes-trailer, jump_count_unique, low_byte-trailer, trailer-parts,
  length-fields,
}
use jet3_rs.Row.Layout.Trailer.Accepted.{
  HasBoundaries, check_bounds-ascending, check_jumps-write_jumps,
}

-- A layout whose boundaries, bounds and jump bytes are in order is accepted.
check_layout-accepted :
    (deleted : Bool) (layout : RowLayout) (row : List ℕ)
    → byte_at row layout.offsets_start ≡ layout.offsets_start % 256
    → boundary layout row 0 ≡ layout.fixed_boundary
    → check_bounds layout.variable_count 0 layout.fixed_boundary layout row
      ≡ ok layout.offsets_start
    → check_jumps layout row 0 (jump_bytes layout row) ≡ ok tt
    → check_layout deleted layout row ≡ ok layout
unfolding check_layout
check_layout-accepted deleted layout row low fixed bounds jumps =
    let low_lem : (layout.variable_count == 255
          && not (byte_at row layout.offsets_start == layout.offsets_start % 256))
        ≡ false =
      ground arith in
    let fixed_lem : (ltb layout.fixed_boundary layout.fixed_boundary
          || (not deleted && not (layout.fixed_boundary == layout.fixed_boundary)))
        ≡ false =
      ground arith in
    let end_lem : not (layout.offsets_start == layout.offsets_start) ≡ false = ground arith in
    rw low_lem (rw fixed (rw fixed_lem (rw bounds (rw end_lem (rw jumps refl)))))

pub check_layout-trailer :
    (deleted : Bool) (layout : RowLayout) (head bs nulls : List ℕ)
    → layout.offsets_start ≡ length head
    → length bs ≡ layout.variable_count + 1
    → layout.variable_count ≤ 255
    → IsAscending bs
    → get_or bs layout.variable_count 0 ≡ layout.offsets_start
    → layout.offsets_start < 256 * (layout.jumps + 1)
    → get_or bs 0 0 ≡ layout.fixed_boundary
    → check_layout deleted layout (head ++ (trailer layout.jumps bs ++ nulls)) ≡ ok layout
check_layout-trailer deleted layout head bs nulls start count few ascending last below fixed =
    let row = head ++ (trailer layout.jumps bs ++ nulls) in
    let found : HasBoundaries layout row bs =
      λ i le. boundary-trailer layout head bs nulls i start count few ascending last below le in
    let here : layout.offsets_start ≡ length head + 0 = omega arith in
    let low : byte_at row layout.offsets_start ≡ layout.offsets_start % 256 =
      ap (byte_at row) here
      ∙ low_byte-trailer head bs nulls layout.jumps layout.variable_count 0 (omega arith)
      ∙ ap (λ n. n % 256) last in
    let bounds =
      check_bounds-ascending layout.variable_count 0 layout row bs found ascending count last
        (omega arith) in
    let jumps =
      check_jumps-write_jumps layout.jumps 0 layout row bs found count few last (omega arith) in
    let read = jump_bytes-trailer layout head bs nulls start count in
    check_layout-accepted deleted layout row low (found 0 (omega arith) ∙ fixed)
      (ap (λ n. check_bounds layout.variable_count 0 n layout row) (sym fixed) ∙ bounds)
      (ap (check_jumps layout row 0) read ∙ jumps)

-- The layout of a row that was written.
abbrev pub written_layout : (head bs : List ℕ) (jumps column_count : ℕ) → RowLayout
written_layout head bs jumps column_count = record {
  fixed_boundary = get_or bs 0 0;
  offsets_start = length head;
  null_start = length head + length bs + jumps + 1;
  column_count = column_count;
  variable_count = length bs - 1;
  jumps = jumps;
}

pub length-row :
    (head bs nulls : List ℕ) (jumps : ℕ)
    → length (head ++ (trailer jumps bs ++ nulls))
      ≡ length head + length bs + jumps + 1 + length nulls
length-row head bs nulls jumps =
    let count = (length bs - 1) % 256 ∷ [] in
    rw (trailer-parts head bs nulls jumps) (
      omega (
        arith,
        length-fields head bs,
        length-write_jumps jumps bs,
        length-append (head ++ low_bytes bs) (write_jumps jumps bs ++ (count ++ nulls)),
        length-append (write_jumps jumps bs) (count ++ nulls),
      ))

count-row :
    (head bs nulls : List ℕ) (jumps position : ℕ)
    → position ≡ length head + length bs + jumps
    → byte_at (head ++ (trailer jumps bs ++ nulls)) position ≡ (length bs - 1) % 256
count-row head bs nulls jumps position h =
    let rest = ((length bs - 1) % 256 ∷ []) ++ nulls in
    let split : position ≡ (length head + length bs) + (jumps + 0) = omega arith in
    rw (trailer-parts head bs nulls jumps) (
      rw split (
        byte_at-append_right (head ++ low_bytes bs) (write_jumps jumps bs ++ rest)
          (length head + length bs) (jumps + 0) (length-fields head bs)
        ∙ byte_at-append_right (write_jumps jumps bs) rest jumps 0 (length-write_jumps jumps bs)))

-- The steps of `validate_variable` with the tests decided.
validate_variable-accepted :
    (deleted : Bool) (minimum : ℕ) (layout : RowLayout) (row : List ℕ)
    (definition : TableDefinition) (s s' : ResourceBudget)
    → layout.null_start ≡ layout.offsets_start + (layout.variable_count + 1 + layout.jumps) + 1
    → byte_at row (layout.null_start - 1) ≡ layout.variable_count
    → layout.variable_count ≤ definition.storage_variable_count
    → layout.variable_count ≤ layout.column_count
    → (length row - 1) / 256 ≡ layout.jumps
    → jump_count (length row - layout.jumps) ≡ layout.jumps
    → charge_work_units ((layout.variable_count + 1 + 2 * layout.jumps) * layout.jumps) s
      ≡ done tt s'
    → check_layout deleted layout row ≡ ok layout
    → validate_variable deleted minimum layout.variable_count layout.fixed_boundary
        layout.column_count layout.null_start row definition s
      ≡ done layout s'
unfolding validate_variable
validate_variable-accepted deleted minimum layout row definition s s' where_nulls byte stored
      columns blocks jumps charged checked =
    let some_lem : leb 1 layout.null_start ≡ true = ground arith in
    let count_lem : (ltb layout.variable_count layout.variable_count
          || (ltb definition.storage_variable_count layout.variable_count
              || (ltb layout.column_count layout.variable_count
                  || (not deleted && not (layout.variable_count == layout.variable_count)))))
        ≡ false =
      ground arith in
    let jumps_lem : not (layout.jumps == layout.jumps) ≡ false = ground arith in
    let fits_lem : leb (layout.variable_count + 1 + layout.jumps) (layout.null_start - 1) ≡ true =
      ground arith in
    let start_lem : layout.null_start - 1 - (layout.variable_count + 1 + layout.jumps)
        ≡ layout.offsets_start =
      omega arith in
    rw some_lem (
      rw byte (
        rw count_lem (
          rw blocks
            (rw jumps (rw jumps_lem (rw fits_lem (rw start_lem (rw charged (rw checked refl)))))))))

-- The jump bytes that the lengths of the written row give.
abbrev pub written_jumps : (head bs nulls : List ℕ) → ℕ
written_jumps head bs nulls = jump_count (length head + length bs + 1 + length nulls)

below-jumps :
    (jumps : ℕ) (head bs nulls : List ℕ)
    → written_jumps head bs nulls ≡ jumps
    → length head < 256 * (jumps + 1)
unfolding jump_count
below-jumps jumps head bs nulls h = omega arith

-- The reader finds each variable field of a written row between the boundaries that the writer wrote,
-- where the boundaries ascend to the end of the fields, there is one more of them than fields, at most
-- 255 fields, and as many jump bytes as the row's length needs.
pub variable_range-trailer :
    (head bs nulls : List ℕ) (jumps column_count count i : ℕ)
    → length bs ≡ count + 1
    → count ≤ 255
    → IsAscending bs
    → get_or bs count 0 ≡ length head
    → written_jumps head bs nulls ≡ jumps
    → i < count
    → variable_range
        (written_layout head bs jumps column_count)
        (head ++ (trailer jumps bs ++ nulls))
        i
      ≡ some (get_or bs i 0, get_or bs (i + 1) 0)
unfolding variable_range
variable_range-trailer head bs nulls jumps column_count count i size few ascending last blocks lt =
    let layout = written_layout head bs jumps column_count in
    let same : length bs - 1 ≡ count = omega arith in
    let found : (k : ℕ)
        → k ≤ count
        → boundary layout (head ++ (trailer jumps bs ++ nulls)) k ≡ get_or bs k 0 =
      λ k le.
        boundary-trailer layout head bs nulls k refl (omega arith) (omega arith) ascending
          (ap (λ n. get_or bs n 0) same ∙ last) (below-jumps jumps head bs nulls blocks)
          (omega arith) in
    let inside : (ltb 255 i || leb (length bs - 1) i) ≡ false = ground arith in
    rw inside (rw (found i (omega arith)) (rw (found (i + 1) (omega arith)) refl))

-- The part of the reader's check for rows with variable columns accepts a written row.
pub validate_variable-trailer :
    (deleted : Bool) (minimum fixed_boundary column_count count jumps null_start : ℕ)
    (head bs nulls : List ℕ) (definition : TableDefinition) (s s' : ResourceBudget)
    → length bs ≡ count + 1
    → count ≤ 255
    → IsAscending bs
    → get_or bs count 0 ≡ length head
    → get_or bs 0 0 ≡ fixed_boundary
    → written_jumps head bs nulls ≡ jumps
    → null_start ≡ length head + length bs + jumps + 1
    → count ≤ definition.storage_variable_count
    → count ≤ column_count
    → charge_work_units ((count + 1 + 2 * jumps) * jumps) s ≡ done tt s'
    → validate_variable deleted minimum count fixed_boundary column_count null_start
        (head ++ (trailer jumps bs ++ nulls))
        definition
        s
      ≡ done
          (record {
            fixed_boundary = fixed_boundary;
            offsets_start = length head;
            null_start = null_start;
            column_count = column_count;
            variable_count = count;
            jumps = jumps;
          })
          s'
validate_variable-trailer deleted minimum fixed_boundary column_count count jumps null_start head bs
      nulls definition s s' size few ascending last fixed blocks nulls_at stored columns charged =
    let row = head ++ (trailer jumps bs ++ nulls) in
    let layout : RowLayout = record {
      fixed_boundary = fixed_boundary;
      offsets_start = length head;
      null_start = null_start;
      column_count = column_count;
      variable_count = count;
      jumps = jumps;
    } in
    let size_lem = length-row head bs nulls jumps in
    let plain = length head + length bs + 1 + length nulls in
    let unique : (plain + jumps - 1) / 256 ≡ jumps =
      rw (← blocks) (jump_count_unique plain (omega arith)) in
    let whole : length row - 1 ≡ plain + jumps - 1 = omega arith in
    let without : length row - jumps ≡ plain = omega arith in
    let byte = count-row head bs nulls jumps (null_start - 1) (omega arith) in
    validate_variable-accepted deleted minimum layout row definition s s' (omega arith)
      (byte ∙ omega arith) stored columns (ap (λ n. n / 256) whole ∙ unique)
      (ap jump_count without ∙ blocks) charged
      (check_layout-trailer deleted layout head bs nulls refl size few ascending last
        (below-jumps jumps head bs nulls blocks) fixed)
