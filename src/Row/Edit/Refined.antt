-- ===== src/Row/Edit/Refined.antt =====
-- `remove` and `replace` as changes of one entry of the table of the page's rows.
use jet3_rs.Common.{
  ℕ, ◌+◌, ◌-◌, ◌%◌, ◌≤◌, ◌<◌, ◌≡◌, refl, arith, List, [], length, ◌⊎◌, Option, some, Bool, ap, sym,
  ◌∙◌, ◌==◌, if◌then◌else◌, true, false, inl, inr,
}
use jet3_rs.Common.Bytes.{AllBytes, byte_at}
use jet3_rs.Common.Results.{done}
use jet3_rs.Format.Geometry.{PageNumber}
use jet3_rs.Format.Resource.{ResourceBudget}
use jet3_rs.Format.Resource.Accounting.{HasU64Limits}
use jet3_rs.Format.DataPageDirectory.{declared_row_count, raw_offset}
use jet3_rs.Format.DataPageDirectory.Shape.{start_of, end_of, IsEntry}
use jet3_rs.Format.DataPageDirectory.Rows.{start-le_start, end_of-le_page}
use jet3_rs.Format.PageImage.{PageImage}
use jet3_rs.Row.Slot.{RowSlot, ordinary, link, storage, storage_link, deleted, flags}
use jet3_rs.Row.DataPage.{DataPageEditor, open_page}
use jet3_rs.Row.DataPage.Space.{open_page_entries}
use jet3_rs.Row.Insert.{state_or_ordinary}
use jet3_rs.Row.Insert.Appended.{lowest_of}
use jet3_rs.Row.Edit.{retained, remove, replace}
use jet3_rs.Row.Edit.Facts.{row_length}
use jet3_rs.Row.Edit.Rows.{bytes_from, row_of, bytes_from_all, same_row, slot_length}
use jet3_rs.Row.Edit.Removed.{IsRemoved, remove-IsRemoved}
use jet3_rs.Row.Edit.Replaced.{IsReplaced, replace-IsReplaced}
use jet3_rs.Common.Ranges.{same_or_apart}

abbrev Entries : List ℕ → Type 0
Entries page =
    (row : ℕ) → row < declared_row_count page → IsEntry page (declared_row_count page) row

pub flags_above : (state : RowSlot) → flags state % 8192 ≡ 0
unfolding flags
flags_above ordinary = refl
flags_above link = refl
flags_above storage = refl
flags_above storage_link = refl
flags_above deleted = refl

module _ (page after : List ℕ) (slot : ℕ) (row : List ℕ) (all : Entries page)
    (has_slot : slot < declared_row_count page)
    (room : length row ≤ lowest_of page + row_length page slot)
    (before : (k : ℕ) → k < slot → raw_offset after k ≡ raw_offset page k)
    (here : start_of (raw_offset after slot) + length row ≡ end_of page slot)
    (behind : (k : ℕ)
      → slot < k
      → k < declared_row_count page
      → raw_offset after k + length row ≡ raw_offset page k + row_length page slot)
    (above : (i : ℕ) → end_of page slot ≤ i → byte_at after i ≡ byte_at page i)
    (below : (i : ℕ)
      → lowest_of page ≤ i
      → i < start_of (raw_offset page slot)
      → byte_at after (i + row_length page slot - length row) ≡ byte_at page i)
    (written : (j : ℕ)
      → j < length row
      → byte_at after (end_of page slot - length row + j) ≡ byte_at row j) where
  new_row : row_of after slot ≡ row
  new_row =
      let size =
        slot_length page after slot (declared_row_count page) (length row) (lowest_of page) all
          has_slot refl room before here behind above below in
      let at : end_of page slot - length row ≡ start_of (raw_offset after slot) = omega arith in
      ap (bytes_from after (start_of (raw_offset after slot))) size
      ∙ bytes_from_all after row (start_of (raw_offset after slot))
          (λ j lt. ap (λ n. byte_at after (n + j)) (sym at) ∙ written j lt)

  changed_row :
      (k : ℕ)
      → k < declared_row_count page
      → row_of after k ≡ (if k == slot then row else row_of page k)
  changed_row k inside = by_slot (same_or_apart k slot)
    where
      by_slot :
          (k ≡ slot) ⊎ ¬ (k ≡ slot) → row_of after k ≡ (if k == slot then row else row_of page k)
      by_slot (inl e) =
          let same : (k == slot) ≡ true = ground arith in
          ap (row_of after) e ∙ (new_row ∙ ap (λ t. if t then row else row_of page k) (sym same))
      by_slot (inr apart) =
          let other : (k == slot) ≡ false = ground arith in
          same_row page after slot (declared_row_count page) (length row) (lowest_of page) all
            has_slot refl room before here behind above below k inside apart
          ∙ ap (λ t. if t then row else row_of page k) (sym other)

removed_rows :
    (page after : List ℕ) (slot k : ℕ)
    → Entries page
    → IsRemoved page after slot
    → k < declared_row_count page
    → row_of after k ≡ (if k == slot then [] else row_of page k)
removed_rows page after slot k all r inside =
    let top = end_of-le_page page (declared_row_count page) slot all r.has_slot in
    changed_row page after slot [] all r.has_slot (omega arith) r.before_kept
      (omega (arith, r.slot_deleted)) (λ j lt in_page. omega (arith, r.behind_moved j lt in_page))
      r.above_kept
      (λ i lo hi.
        let same : i + row_length page slot - 0 ≡ i + row_length page slot = omega arith in
        ap (λ n. byte_at after n) same ∙ r.below_moved i lo hi)
      (λ j lt. absurd (omega arith)) k inside

replaced_rows :
    (page after row : List ℕ) (slot k : ℕ) (state : RowSlot)
    → Entries page
    → IsReplaced page after slot row state
    → k < declared_row_count page
    → row_of after k ≡ (if k == slot then row else row_of page k)
replaced_rows page after row slot k state all r inside =
    let top = end_of-le_page page (declared_row_count page) slot all r.has_slot in
    let under =
      start-le_start page (declared_row_count page) slot (declared_row_count page - 1) all
        (omega arith) (omega arith) in
    let ordered = (all slot r.has_slot).ordered in
    let packed = r.still_packed in
    changed_row page after slot row all r.has_slot (omega arith) r.before_kept
      (omega (arith, r.entry_there, flags_above state)) r.behind_moved r.above_kept r.below_moved
      r.row_there k inside

-- On a page of 2048 bytes that was opened, where the limits are `u64` values, a removal that keeps
-- the page is the change of one entry in the table of its rows: the row of the slot has no bytes any
-- more, and the row of every other slot has the bytes that it had.
pub remove-row_of :
    (number owner : PageNumber) (page : List ℕ) (slot k : ℕ) (physical : Bool)
    (opening opened b b' : ResourceBudget) (editor : DataPageEditor) (image : PageImage)
    → open_page number owner page opening ≡ done editor opened
    → length page ≡ 2048
    → AllBytes page
    → HasU64Limits b.limits
    → remove editor slot physical b ≡ done (retained image) b'
    → k < declared_row_count page
    → row_of image.bytes k ≡ (if k == slot then [] else row_of page k)
remove-row_of number owner page slot k physical opening opened b b' editor image o len bytes u h
      inside =
    removed_rows page image.bytes slot k
      (λ row lt. open_page_entries number owner page opening opened editor row o lt)
      (remove-IsRemoved number owner page slot physical opening opened b b' editor image o len bytes
        u h)
      inside

-- On a page of 2048 bytes that was opened, where the limits are `u64` values, a replacement that
-- gives a page is the change of one entry in the table of its rows: the row of the slot is the new
-- row, and the row of every other slot has the bytes that it had.
pub replace-row_of :
    (number owner : PageNumber) (page row : List ℕ) (slot k : ℕ) (physical : Option RowSlot)
    (opening opened b b' : ResourceBudget) (editor : DataPageEditor) (image : PageImage)
    → open_page number owner page opening ≡ done editor opened
    → length page ≡ 2048
    → AllBytes page
    → HasU64Limits b.limits
    → replace editor slot row physical b ≡ done (some image) b'
    → k < declared_row_count page
    → row_of image.bytes k ≡ (if k == slot then row else row_of page k)
replace-row_of number owner page row slot k physical opening opened b b' editor image o len bytes u
      h inside =
    replaced_rows page image.bytes row slot k (state_or_ordinary physical)
      (λ row lt. open_page_entries number owner page opening opened editor row o lt)
      (replace-IsReplaced number owner page row slot physical opening opened b b' editor image o len
        bytes u h)
      inside
