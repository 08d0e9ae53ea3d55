-- ===== src/Row/Insert/Appended.antt =====
-- `append` adds the row to the page and keeps the rows that are there.
use jet3_rs.Common.{
  ℕ, ◌+◌, ◌-◌, ◌≤◌, ◌<◌, ◌≡◌, arith, List, length, slice, Option, some, bit_or, sym, ap, ◌∙◌,
}
use mathlib.Core.Path.{subst}
use jet3_rs.Common.Bytes.{byte_at, u16_at}
use jet3_rs.Common.Results.{done}
use jet3_rs.Format.Geometry.{PageNumber}
use jet3_rs.Format.Resource.{ResourceBudget, charge_items}
use jet3_rs.Format.Resource.Charges.{items, charge}
use jet3_rs.Format.Resource.Accounting.{HasU64Limits, charge_done}
use jet3_rs.Format.PageImage.{PageImage}
use jet3_rs.Format.DataPageDirectory.{
  declared_row_count, raw_offset, free_space_offset, directory_end_of,
}
use jet3_rs.Format.DataPageDirectory.Shape.{start_of}
use jet3_rs.Row.Slot.Flags.{or_flags, flags-lt}
use jet3_rs.Row.Slot.{RowSlot, flags}
use jet3_rs.Row.DataPage.{DataPageEditor, open_page}
use jet3_rs.Row.DataPage.Space.{packed_iff, open_page_rows, row_in_page}
use jet3_rs.Row.Insert.{append, append_writes, state_or_ordinary}
use jet3_rs.Row.Insert.Writes.{append_writes-output, appended_page}
use jet3_rs.Row.Insert.Bytes.{
  row_kept, raw_offset_kept, raw_offset_new, row_new, count_new, free_new,
}
use jet3_rs.Row.Insert.Page.{append_parts, append_into_parts, on_copy-done}

-- The start of the lowest row of a page.
abbrev pub lowest_of : List ℕ → ℕ
lowest_of page = start_of (raw_offset page (declared_row_count page - 1))

-- A page with one row more: the row lies below the lowest row, its directory entry is its start and
-- the flags of its slot, the free bytes are again the gap that is left, and all other entries and
-- all bytes of the other rows are as they were.
pub record IsAppended (page after row : List ℕ) (state : RowSlot) : Type 0 where
  pub some_row : 0 < declared_row_count page
  pub one_more : declared_row_count after ≡ declared_row_count page + 1
  pub above_directory : directory_end_of (declared_row_count page + 1) + length row ≤ lowest_of page
  pub row_there : slice after (lowest_of page - length row) (lowest_of page) ≡ row
  pub entry_there :
      raw_offset after (declared_row_count page) ≡ lowest_of page - length row + flags state
  pub still_packed :
      u16_at after free_space_offset + directory_end_of (declared_row_count page + 1) + length row
      ≡ lowest_of page
  pub entries_kept : (k : ℕ) → k < declared_row_count page → raw_offset after k ≡ raw_offset page k
  pub rows_kept : (i : ℕ) → lowest_of page ≤ i → byte_at after i ≡ byte_at page i

-- The page of the four writes, where the gap is known.
appended_page-IsAppended :
    (page row : List ℕ) (state : RowSlot) (low start free : ℕ)
    → length page ≡ 2048
    → 0 < declared_row_count page
    → declared_row_count page ≤ 254
    → low ≡ lowest_of page
    → low ≤ 2048
    → start + length row ≡ low
    → directory_end_of (declared_row_count page + 1) + free ≡ start
    → IsAppended page
        (appended_page page row start (declared_row_count page) (start + flags state) free)
        row
        state
appended_page-IsAppended page row state low start free len some_row few e top below gap =
    let count = declared_row_count page in
    let word = start + flags state in
    let small = flags-lt state in
    let same : lowest_of page - length row ≡ start = omega arith in
    let end : lowest_of page ≡ start + length row = omega arith in
    record {
      some_row = some_row;
      one_more = count_new page row start count word free len few (omega arith) (omega arith);
      above_directory = omega arith;
      row_there =
          rw same
            (rw end (row_new page row start count word free len few (omega arith) (omega arith)));
      entry_there = rw same (
          raw_offset_new page row start count word free len few (omega arith) (omega arith)
            (omega arith));
      still_packed = omega (
        arith,
        free_new page row start count word free len few (omega arith) (omega arith) (omega arith),
      );
      entries_kept =
          raw_offset_kept page row start count word free len few (omega arith) (omega arith);
      rows_kept = λ i h.
          row_kept page row start count word free len few (omega arith) (omega arith) i
            (omega (arith, h));
    }

limits_after :
    (count : ℕ) (b b' : ResourceBudget)
    → charge_items count b ≡ done tt b'
    → HasU64Limits b.limits
    → HasU64Limits b'.limits
unfolding charge
limits_after count b b' h u =
    let (_, after) = charge_done (items count) b b' h in
    subst (λ (x : ResourceBudget). HasU64Limits x.limits) (sym after) u

-- On a page of 2048 bytes that was opened, where the limits are `u64` values, an append that gives
-- a page gives the next slot and the page with one row more: the row's bytes lie below the lowest
-- row, its entry carries the slot's flags, the stored free bytes are the gap that is left, and
-- every other entry and all bytes of the other rows are as they were.
pub append-IsAppended :
    (number owner : PageNumber) (page row : List ℕ) (physical : Option RowSlot)
    (opening opened b b' : ResourceBudget) (editor : DataPageEditor) (image : PageImage) (slot : ℕ)
    → open_page number owner page opening ≡ done editor opened
    → length page ≡ 2048
    → HasU64Limits b.limits
    → append editor row physical b ≡ done (some (image, slot)) b'
    → (slot ≡ declared_row_count page)
      × IsAppended page image.bytes row (state_or_ordinary physical)
append-IsAppended number owner page row physical opening opened b b' editor image slot o len u h =
    let (source, rows, few) = open_page_rows number owner page opening opened editor o in
    let (paid, gap, charged, found, into) = append_parts editor row physical b b' image slot h in
    let (some_row, lowest, end, free, filled) =
      (packed_iff number owner page opening opened editor "data page free-byte count" gap o).0
        found in
    let (_, room, below, top, _, wrote, at) =
      append_into_parts editor row (state_or_ordinary physical) gap paid b' image slot into in
    let state = state_or_ordinary physical in
    let start = gap.lowest - length row in
    let left = gap.free - (length row + 2) in
    let low : gap.lowest ≡ lowest_of page =
      lowest ∙ ap (λ n. start_of (raw_offset page (n - 1))) rows in
    let inside =
      row_in_page number owner page opening opened editor (declared_row_count page - 1) o
        (omega arith) in
    let runs =
      on_copy-done editor.source
        (append_writes row start editor.directory.inner.row_count (bit_or start (flags state)) left)
        paid b' image wrote in
    let out : image.bytes
        ≡ appended_page editor.source row start editor.directory.inner.row_count
            (bit_or start (flags state)) left =
      append_writes-output row start editor.directory.inner.row_count (bit_or start (flags state))
        left (record { bytes = editor.source }) paid (image, b') (ap length source ∙ len)
        (limits_after editor.directory.inner.row_count b paid charged u) (omega arith) (omega arith)
        runs in
    let plain : image.bytes
        ≡ appended_page page row start (declared_row_count page) (start + flags state) left =
      rw source at (rw rows at (rw (or_flags state start (omega arith)) at out)) in
    (
      omega arith,
      subst (λ bytes. IsAppended page bytes row state) (sym plain)
          (appended_page-IsAppended page row state gap.lowest start left len (omega arith)
            (omega arith) low (omega arith) (omega arith) (omega arith)),
    )
