-- ===== src/Row/DataPage/Live.antt =====
-- The live rows are the rows that hold bytes.
use jet3_rs.Common.{
  ℕ, zero, suc, ◌+◌, ◌%◌, ◌≤◌, ◌≡◌, arith, List, ltb, if◌then◌else◌, Bool, true, false, String,
}
use jet3_rs.Common.Results.{ok, and_then-eq_ok}
use jet3_rs.Format.DataPageDirectory.{raw_offset}
use jet3_rs.Format.DataPageDirectory as Common_directory
use jet3_rs.Format.DataPageDirectory.Shape.{start_of, end_of, masked_start}
use jet3_rs.Format.DataPageDirectory.Rows.{entry_end-end_of}
use jet3_rs.Row.Directory.{RowEntry}
use jet3_rs.Row.Directory as Row_directory
use jet3_rs.Row.Slot.{read, check_length}
use jet3_rs.Row.DataPage.{DataPageEditor, entry, live_row, live_rows_from, live_rows}

-- 1 for a row that holds bytes, by its own directory word and the word before.
abbrev pub holds_bytes : List ℕ → ℕ → ℕ
holds_bytes page row = if ltb (start_of (raw_offset page row)) (end_of page row) then 1 else 0

-- The rows with bytes among `left` rows from `row` on.
unfoldable pub rows_with_bytes : List ℕ → ℕ → ℕ → ℕ
rows_with_bytes page zero row = 0
rows_with_bytes page (suc left) row = holds_bytes page row + rows_with_bytes page left (suc row)

entry_bounds :
    (editor : DataPageEditor) (row : ℕ) (e : RowEntry)
    → entry editor row ≡ ok e
    → (e.start ≡ start_of (raw_offset editor.source row)) × (e.end ≡ end_of editor.source row)
unfolding entry Row_directory.entry Common_directory.entry
entry_bounds editor row e h =
    ground (arith, masked_start (raw_offset editor.source row), entry_end-end_of editor.source row)

live_row-length :
    (physical : Bool) (message : String) (e : RowEntry) (one : ℕ)
    → live_row physical message e ≡ ok one
    → one ≡ (if ltb e.start e.end then 1 else 0)
unfolding live_row read check_length
live_row-length true message e one h = ground arith
live_row-length false message e one h = ground arith

live_rows_from-rows :
    (editor : DataPageEditor) (physical : Bool) (message : String) (left ordinal live n : ℕ)
    → ordinal + left ≤ 256
    → live_rows_from editor physical message left ordinal live ≡ ok n
    → n ≡ live + rows_with_bytes editor.source left ordinal
unfolding live_rows_from rows_with_bytes
live_rows_from-rows editor physical message zero ordinal live n few h = ground arith
live_rows_from-rows editor physical message (suc left) ordinal live n few h =
    let (e, found, after) = and_then-eq_ok (entry editor (ordinal % 256)) _ h in
    let (one, counted, rest) = and_then-eq_ok (live_row physical message e) _ after in
    let same : ordinal % 256 ≡ ordinal = omega arith in
    let (start, end) = entry_bounds editor ordinal e (rw same at found) in
    let live_here : one ≡ holds_bytes editor.source ordinal =
      rw (← start) (rw (← end) (live_row-length physical message e one counted)) in
    omega (
      arith,
      live_here,
      live_rows_from-rows editor physical message left (suc ordinal) (live + one) n (omega arith)
          rest,
    )

-- On a page of at most 256 rows, whichever kinds of rows are allowed, the count of live rows is
-- the number of rows whose bytes, from the row's start to where the row before it starts, are not
-- none.
pub live_rows-rows_with_bytes :
    (editor : DataPageEditor) (physical : Bool) (message : String) (n : ℕ)
    → editor.directory.inner.row_count ≤ 256
    → live_rows editor physical message ≡ ok n
    → n ≡ rows_with_bytes editor.source editor.directory.inner.row_count 0
unfolding live_rows
live_rows-rows_with_bytes editor physical message n few h = omega (
  arith,
  live_rows_from-rows editor physical message editor.directory.inner.row_count 0 0 n (omega arith)
      h,
)
