-- ===== src/Row/Edit/Replaced.antt =====
-- `replace` puts the new row in the place of the old one and keeps the other rows.
use jet3_rs.Common.{
  ℕ, ◌+◌, ◌-◌, ◌*◌, ◌≤◌, ◌<◌, ◌≡◌, arith, List, ◌++◌, length, length-append, Option, some, slice,
  length-slice, get_or-slice, ap, sym, ◌∙◌,
}
use mathlib.Core.Path.{subst}
use jet3_rs.Common.Bytes.{AllBytes, byte_at, u16_at, u16_at-lt}
use jet3_rs.Common.Results.{Result, done}
use jet3_rs.Format.Geometry.{PageNumber}
use jet3_rs.Format.Resource.{ResourceBudget}
use jet3_rs.Format.Resource.Accounting.{HasU64Limits}
use jet3_rs.Format.DataPageDirectory.{
  declared_row_count, raw_offset, free_space_offset, directory_end_of,
}
use jet3_rs.Format.DataPageDirectory.Shape.{start_of, end_of, IsEntry}
use jet3_rs.Format.PageImage.{PageImage}
use jet3_rs.Row.WriteError.{WriteError}
use jet3_rs.Row.Slot.{RowSlot, flags}
use jet3_rs.Row.Slot.Flags.{flags-lt}
use jet3_rs.Row.DataPage.{DataPageEditor, open_page}
use jet3_rs.Row.DataPage.Space.{open_page_rows}
use jet3_rs.Row.Insert.{state_or_ordinary}
use jet3_rs.Row.Insert.Appended.{lowest_of}
use jet3_rs.Row.Insert.Page.{on_copy-done}
use jet3_rs.Row.Edit.{replace, replace_writes, replace_word}
use jet3_rs.Row.Edit.Facts.{Facts, row_length, limits_after_work, open_page-Facts}
use jet3_rs.Row.Edit.Moved.{
  Moved, IsPlaced, moved_above, block_there, count_kept, entry_kept, entry_written, free_written,
}
use jet3_rs.Row.Edit.Rewritten.{replace_writes-Moved, get_or-append_left, get_or-append_right}
use jet3_rs.Row.Edit.Replacing.{
  replace_parts, replace_into_parts, replace_word_here, replace_word_there,
}

-- A page with another row in a slot: the new row ends where the old one did and its entry has the
-- flags of its kind, the rows in later slots and their entries have moved by the difference of the
-- two lengths, the stored free bytes are again the gap below the lowest row, and everything else of
-- the directory and of the rows is as it was.
pub record IsReplaced (page after : List ℕ) (slot : ℕ) (row : List ℕ) (state : RowSlot)
    : Type 0 where
  pub has_slot : slot < declared_row_count page
  pub same_count : declared_row_count after ≡ declared_row_count page
  pub row_there :
      (j : ℕ) → j < length row → byte_at after (end_of page slot - length row + j) ≡ byte_at row j
  pub entry_there : raw_offset after slot + length row ≡ end_of page slot + flags state
  pub before_kept : (k : ℕ) → k < slot → raw_offset after k ≡ raw_offset page k
  pub behind_moved :
      (k : ℕ)
      → slot < k
      → k < declared_row_count page
      → raw_offset after k + length row ≡ raw_offset page k + row_length page slot
  pub above_kept : (i : ℕ) → end_of page slot ≤ i → byte_at after i ≡ byte_at page i
  pub below_moved :
      (i : ℕ)
      → lowest_of page ≤ i
      → i < start_of (raw_offset page slot)
      → byte_at after (i + row_length page slot - length row) ≡ byte_at page i
  pub still_packed :
      u16_at after free_space_offset + directory_end_of (declared_row_count page) + length row
      ≡ lowest_of page + row_length page slot

module _ (editor : DataPageEditor) (after : List ℕ) (slot count start end low dest new_free : ℕ)
    (row : List ℕ) (state : RowSlot) (bytes : AllBytes editor.source)
    (all : (row : ℕ) → row < count → IsEntry editor.source count row)
    (f : Facts editor.source slot count start end low) (gap : new_free + (10 + 2 * count) ≡ dest)
    (room : dest + length row ≡ low + (end - start)) (small : new_free < 65536)
    (m : Moved
      (replace_word editor slot state (end - start) (length row))
      editor.source
      after
      (slice editor.source low start ++ row)
      slot
      count
      dest
      new_free) where
  abbrev page : List ℕ
  page = editor.source

  abbrev lower : List ℕ
  lower = slice page low start

  abbrev block : List ℕ
  block = lower ++ row

  abbrev word_of : ℕ → Result WriteError ℕ
  word_of = replace_word editor slot state (end - start) (length row)

  length-lower : length lower ≡ start - low
  length-lower =
      let size = f.size in
      let below = f.below in
      let top = f.in_page in let ordered = f.ordered in length-slice page low start (omega arith)

  length-block : dest + length block ≡ end
  length-block =
      let below = f.below in
      let ordered = f.ordered in omega (arith, length-append lower row, length-lower)

  placed : IsPlaced page block slot count dest
  placed =
      let top = f.in_page in
      record {
        size = f.size;
        has_slot = f.has_slot;
        few = f.few;
        above = omega arith;
        inside = omega (arith, length-block);
      }

  new_entry : raw_offset after slot + length row ≡ start + (end - start) + flags state
  new_entry =
      let (w, is_word, _) = m.is_slotted.0 slot (omega arith) f.has_slot in
      let few = f.few in
      let has_slot = f.has_slot in
      let starts = f.starts in
      let (value, fits) =
        replace_word_here editor slot state (end - start) (length row) w (omega arith) is_word in
      omega (
        arith,
        value,
        entry_written word_of page after block slot count dest new_free placed m slot w
            (omega arith) f.has_slot is_word (omega (arith, value, fits, flags-lt state)),
      )

  moved_entry :
      (k : ℕ)
      → slot < k
      → k < count
      → raw_offset after k + length row ≡ raw_offset page k + (end - start)
  moved_entry k lt inside =
      let (w, is_word, _) = m.is_slotted.0 k (omega arith) inside in
      let few = f.few in
      let here = all k inside in
      let (value, fits) =
        replace_word_there editor slot state (end - start) (length row) k w (omega arith)
          (λ e. absurd (omega arith)) (u16_at-lt page (10 + 2 * k) bytes) here.known is_word in
      omega (
        arith,
        value,
        entry_written word_of page after block slot count dest new_free placed m k w (omega arith)
            inside is_word (omega (arith, value, fits, u16_at-lt page (10 + 2 * k) bytes)),
      )

  moved_below :
      (i : ℕ)
      → low ≤ i
      → i < start
      → byte_at after (i + (end - start) - length row) ≡ byte_at page i
  moved_below i lo hi =
      let at : dest + (i - low) ≡ i + (end - start) - length row = omega arith in
      let back : low + (i - low) ≡ i = omega arith in
      ap (λ n. byte_at after n) (sym at)
      ∙ (block_there word_of page after block slot count dest new_free placed m (i - low)
            (omega (arith, length-append lower row, length-lower))
          ∙ (get_or-append_left lower row (i - low) (omega (arith, length-lower))
              ∙ (get_or-slice page low start (i - low) 0 (omega arith)
                  ∙ ap (λ n. byte_at page n) back)))

  row_placed : (j : ℕ) → j < length row → byte_at after (end - length row + j) ≡ byte_at row j
  row_placed j lt =
      let at : dest + (length lower + j) ≡ end - length row + j =
        omega (arith, length-append lower row, length-block) in
      ap (λ n. byte_at after n) (sym at)
      ∙ (block_there word_of page after block slot count dest new_free placed m (length lower + j)
            (omega (arith, length-append lower row))
          ∙ get_or-append_right lower row j)

  Moved-IsReplaced : IsReplaced page after slot row state
  Moved-IsReplaced =
      let starts = f.starts in
      let ends = f.ends in
      let lowest = f.lowest in
      let counted = f.counted in
      let ordered = f.ordered in
      let same : row_length page slot ≡ end - start = omega arith in
      record {
        has_slot = omega (arith, f.has_slot);
        same_count = count_kept word_of page after block slot count dest new_free placed m;
        row_there = rw (← ends) row_placed;
        entry_there = omega (arith, new_entry);
        before_kept = entry_kept word_of page after block slot count dest new_free placed m;
        behind_moved = λ k lt inside. omega (arith, moved_entry k lt (omega arith));
        above_kept = λ i h.
            moved_above word_of page after block slot count dest new_free placed m i
              (omega (arith, length-block));
        below_moved = λ i lo hi. rw same (moved_below i (omega arith) (omega arith));
        still_packed =
            omega (
              arith,
              free_written word_of page after block slot count dest new_free placed m small,
            );
      }

-- On a page of 2048 bytes that was opened, where the limits are `u64` values, a replacement that
-- gives a page changes just the row of the slot: the new row ends where the old one did, and its
-- entry has the flags of its kind; the rows in later slots keep their bytes and move by the
-- difference of the two lengths together with their entries; the rows in earlier slots and their
-- entries stay; and the stored free bytes are again the gap below the lowest row.
pub replace-IsReplaced :
    (number owner : PageNumber) (page row : List ℕ) (slot : ℕ) (physical : Option RowSlot)
    (opening opened b b' : ResourceBudget) (editor : DataPageEditor) (image : PageImage)
    → open_page number owner page opening ≡ done editor opened
    → length page ≡ 2048
    → AllBytes page
    → HasU64Limits b.limits
    → replace editor slot row physical b ≡ done (some image) b'
    → IsReplaced page image.bytes slot row (state_or_ordinary physical)
replace-IsReplaced number owner page row slot physical opening opened b b' editor image o len bytes
      u h =
    let (source, _, _) = open_page_rows number owner page opening opened editor o in
    let count = editor.directory.inner.row_count in
    let state = state_or_ordinary physical in
    let (e, gap, paid, new_free, found, is_gap, charged, lengths, into) =
      replace_parts editor slot row image physical b b' h in
    let (covers, paid', charged', copy) =
      replace_into_parts editor slot row image e.start e.end state gap new_free paid b' into in
    let (facts, filled, edge, all) =
      open_page-Facts number owner page opening opened editor "replacement free-byte count" slot e
        gap o len found is_gap in
    let runs =
      on_copy-done editor.source (replace_writes editor slot e.start e.end row state gap new_free)
        paid' b' image copy in
    let room : gap.directory_end + new_free + length row ≡ gap.lowest + (e.end - e.start) =
      omega arith in
    let (moved, small) =
      replace_writes-Moved editor slot e.start e.end row state gap new_free paid' (image, b') facts
        (limits_after_work (e.start - gap.lowest) paid paid' charged'
          (limits_after_work (2 * count) b paid charged u))
        room runs in
    subst (λ p. IsReplaced p image.bytes slot row state) source
      (Moved-IsReplaced editor image.bytes slot count e.start e.end gap.lowest
        (gap.directory_end + new_free) new_free row state (subst AllBytes (sym source) bytes) all
        facts (omega arith) room small moved)
