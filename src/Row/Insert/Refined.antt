-- ===== src/Row/Insert/Refined.antt =====
-- `append` as one row more in the table of the page's rows.
use jet3_rs.Common.{
  ℕ, zero, suc, ◌+◌, ◌-◌, ◌≤◌, ◌<◌, ◌≡◌, refl, arith, List, length, get_or-slice, Option, some, ◌⊎◌,
  ap, sym, ◌∙◌, ◌==◌, if◌then◌else◌, true, false, inl, inr,
}
use jet3_rs.Common.Bytes.{byte_at}
use jet3_rs.Common.Ranges.{same_or_apart}
use jet3_rs.Common.Results.{done}
use jet3_rs.Format.Geometry.{PageNumber}
use jet3_rs.Format.Resource.{ResourceBudget}
use jet3_rs.Format.Resource.Accounting.{HasU64Limits}
use jet3_rs.Format.DataPageDirectory.{declared_row_count, raw_offset}
use jet3_rs.Format.DataPageDirectory.Shape.{start_of, end_of, IsEntry}
use jet3_rs.Format.DataPageDirectory.Rows.{start-le_start, end_of-le_page}
use jet3_rs.Format.PageImage.{PageImage}
use jet3_rs.Row.Slot.{RowSlot}
use jet3_rs.Row.DataPage.{DataPageEditor, open_page}
use jet3_rs.Row.DataPage.Space.{open_page_entries}
use jet3_rs.Row.Insert.{append, state_or_ordinary}
use jet3_rs.Row.Insert.Appended.{IsAppended, append-IsAppended, lowest_of}
use jet3_rs.Row.Edit.Facts.{row_length}
use jet3_rs.Row.Edit.Rows.{bytes_from, row_of, bytes_from_all, bytes_from_agree}
use jet3_rs.Row.Edit.Refined.{flags_above}

module _ (page after row : List ℕ) (state : RowSlot)
    (all : (row : ℕ) → row < declared_row_count page → IsEntry page (declared_row_count page) row)
    (r : IsAppended page after row state) where
  end_kept : (k : ℕ) → k ≤ declared_row_count page → end_of after k ≡ end_of page k
  end_kept zero h = refl
  end_kept (suc k) h = ap start_of (r.entries_kept k (omega arith))

  end_of_last : (n : ℕ) → n ≡ declared_row_count page → end_of page n ≡ lowest_of page
  end_of_last zero e = let some_row = r.some_row in absurd (omega arith)
  end_of_last (suc n) e =
      let before : n ≡ declared_row_count page - 1 = omega arith in
      ap (λ j. start_of (raw_offset page j)) before

  old_row : (k : ℕ) → k < declared_row_count page → row_of after k ≡ row_of page k
  old_row k inside =
      let start : start_of (raw_offset after k) ≡ start_of (raw_offset page k) =
        ap start_of (r.entries_kept k inside) in
      let size : row_length after k ≡ row_length page k =
        omega (arith, start, end_kept k (omega arith)) in
      let under =
        start-le_start page (declared_row_count page) k (declared_row_count page - 1) all
          (omega arith) (omega arith) in
      ap (bytes_from after (start_of (raw_offset after k))) size
      ∙ bytes_from_agree after page (start_of (raw_offset after k)) (start_of (raw_offset page k))
          (row_length page k)
          (λ j lt.
            ap (λ n. byte_at after (n + j)) start
            ∙ r.rows_kept (start_of (raw_offset page k) + j) (omega arith))

  new_row : row_of after (declared_row_count page) ≡ row
  new_row =
      let count = declared_row_count page in
      let some_row = r.some_row in
      let above = r.above_directory in
      let top = end_of-le_page page count (count - 1) all (omega arith) in
      let ordered = (all (count - 1) (omega arith)).ordered in
      let start : start_of (raw_offset after count) ≡ lowest_of page - length row =
        omega (arith, r.entry_there, flags_above state) in
      let end = end_kept count (omega arith) ∙ end_of_last count refl in
      let size : row_length after count ≡ length row = omega (arith, start, end) in
      ap (bytes_from after (start_of (raw_offset after count))) size
      ∙ bytes_from_all after row (start_of (raw_offset after count)) (λ j lt.
        ap (λ n. byte_at after (n + j)) start
        ∙ (sym (get_or-slice after (lowest_of page - length row) (lowest_of page) j 0 (omega arith))
            ∙ ap (λ xs. byte_at xs j) r.row_there))

  appended_row :
      (k : ℕ)
      → k ≤ declared_row_count page
      → row_of after k ≡ (if k == declared_row_count page then row else row_of page k)
  appended_row k inside = by_slot (same_or_apart k (declared_row_count page))
    where
      by_slot :
          (k ≡ declared_row_count page) ⊎ ¬ (k ≡ declared_row_count page)
          → row_of after k ≡ (if k == declared_row_count page then row else row_of page k)
      by_slot (inl e) =
          let same : (k == declared_row_count page) ≡ true = ground arith in
          ap (row_of after) e ∙ (new_row ∙ ap (λ t. if t then row else row_of page k) (sym same))
      by_slot (inr apart) =
          let other : (k == declared_row_count page) ≡ false = ground arith in
          old_row k (omega arith) ∙ ap (λ t. if t then row else row_of page k) (sym other)

-- On a page of 2048 bytes that was opened, where the limits are `u64` values, an append that gives
-- a page adds one entry to the table of its rows: the slot that is returned is the old number of
-- rows, its row is the new one, and the row of every other slot has the bytes that it had.
pub append-row_of :
    (number owner : PageNumber) (page row : List ℕ) (physical : Option RowSlot)
    (opening opened b b' : ResourceBudget) (editor : DataPageEditor) (image : PageImage)
    (slot k : ℕ)
    → open_page number owner page opening ≡ done editor opened
    → length page ≡ 2048
    → HasU64Limits b.limits
    → append editor row physical b ≡ done (some (image, slot)) b'
    → k ≤ slot
    → (slot ≡ declared_row_count page)
      × (declared_row_count image.bytes ≡ slot + 1)
      × (row_of image.bytes k ≡ (if k == slot then row else row_of page k))
append-row_of number owner page row physical opening opened b b' editor image slot k o len u h
      inside =
    let (last, r) =
      append-IsAppended number owner page row physical opening opened b b' editor image slot o len u
        h in
    (
      last,
      omega (arith, r.one_more),
      rw last (
          appended_row page image.bytes row (state_or_ordinary physical)
            (λ row lt. open_page_entries number owner page opening opened editor row o lt) r k
            (omega arith)),
    )
