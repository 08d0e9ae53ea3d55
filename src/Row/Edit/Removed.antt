-- ===== src/Row/Edit/Removed.antt =====
-- `remove` takes the row off the page and keeps the other rows.
use jet3_rs.Common.{
  ℕ, ◌+◌, ◌-◌, ◌*◌, ◌≤◌, ◌<◌, ◌≡◌, arith, List, length, Bool, slice, length-slice, get_or-slice, ap,
  sym, ◌∙◌,
}
use mathlib.Core.Path.{subst}
use jet3_rs.Common.Bytes.{AllBytes, byte_at, u16_at, u16_at-lt, to_le_bytes}
use jet3_rs.Common.Results.{Result, done, ◌>>◌}
use jet3_rs.Format.Geometry.{PageNumber}
use jet3_rs.Format.Resource.{ResourceBudget}
use jet3_rs.Format.Resource.Accounting.{HasU64Limits}
use jet3_rs.Format.DataPageDirectory.{
  declared_row_count, raw_offset, free_space_offset, directory_end_of,
}
use jet3_rs.Format.DataPageDirectory.Shape.{start_of, end_of, IsEntry}
use jet3_rs.Format.PageImage.{PageImage}
use jet3_rs.Row.WriteError.{WriteError}
use jet3_rs.Row.DataPage.{DataPageEditor, open_page}
use jet3_rs.Row.DataPage.Space.{open_page_rows}
use jet3_rs.Row.Insert.Appended.{lowest_of}
use jet3_rs.Row.Insert.Page.{on_copy-done}
use jet3_rs.Row.Edit.{retained, remove, remove_writes, remove_word}
use jet3_rs.Row.Edit.Facts.{Facts, row_length, limits_after_work, open_page-Facts}
use jet3_rs.Row.Edit.Parts.{remove_parts, remove_into_parts}
use jet3_rs.Row.Edit.Words.{remove_word_here, remove_word_there}
use jet3_rs.Row.Edit.Moved.{
  Moved, IsPlaced, moved_above, block_there, count_kept, entry_kept, entry_written, free_written,
}
use jet3_rs.Row.Edit.Slots.{write_slots-output}
use jet3_rs.Row.DataPage.{write_free}
use jet3_rs.Row.DataPage.Writing.{write_step, one_write, write_then, sequence-done}
use jet3_rs.Row.Edit.{write_slots}

-- A page without the row of a slot: the slot is deleted and empty where the row ended, the rows in
-- later slots and their entries have moved up by the row's length, the stored free bytes are again
-- the gap below the lowest row, and everything else of the directory and of the rows is as it was.
pub record IsRemoved (page after : List ℕ) (slot : ℕ) : Type 0 where
  pub has_slot : slot < declared_row_count page
  pub same_count : declared_row_count after ≡ declared_row_count page
  pub slot_deleted : raw_offset after slot ≡ end_of page slot + 0xc000
  pub before_kept : (k : ℕ) → k < slot → raw_offset after k ≡ raw_offset page k
  pub behind_moved :
      (k : ℕ)
      → slot < k
      → k < declared_row_count page
      → raw_offset after k ≡ raw_offset page k + row_length page slot
  pub above_kept : (i : ℕ) → end_of page slot ≤ i → byte_at after i ≡ byte_at page i
  pub below_moved :
      (i : ℕ)
      → lowest_of page ≤ i
      → i < start_of (raw_offset page slot)
      → byte_at after (i + row_length page slot) ≡ byte_at page i
  pub still_packed :
      u16_at after free_space_offset + directory_end_of (declared_row_count page)
      ≡ lowest_of page + row_length page slot

remove_writes-Moved :
    (editor : DataPageEditor) (slot start end low new_free : ℕ) (budget : ResourceBudget)
    (s : PageImage × ResourceBudget)
    → length editor.source ≡ 2048
    → HasU64Limits budget.limits
    → slot ≤ editor.directory.inner.row_count
    → editor.directory.inner.row_count ≤ 256
    → low + (end - start) ≤ 2048
    → remove_writes editor slot start end low new_free (record { bytes = editor.source }, budget)
      ≡ done tt s
    → Moved
        (remove_word editor slot end (end - start))
        editor.source
        s.0.bytes
        (slice editor.source low start)
        slot
        editor.directory.inner.row_count
        (low + (end - start))
        new_free
unfolding remove_writes write_free
remove_writes-Moved editor slot start end low new_free budget s len u inside few room h =
    let word_of = remove_word editor slot end (end - start) in
    let count = editor.directory.inner.row_count in
    let (s1, v1, e1, h1) =
      write_then (low + (end - start)) (slice editor.source low start)
        (write_slots word_of (count - slot) slot >> write_step 2 (to_le_bytes 2 new_free))
        (record { bytes = editor.source }, budget) s room (len, u) h in
    let (s2, h2, h3) =
      sequence-done (write_slots word_of (count - slot) slot)
        (write_step 2 (to_le_bytes 2 new_free)) s1 s h1 in
    let (v2, written) = write_slots-output word_of (count - slot) slot s1 s2 (omega arith) v1 h2 in
    let (_, e3) = one_write 2 (to_le_bytes 2 new_free) s2 s (omega arith) v2 h3 in
    let all : slot + (count - slot) ≡ count = omega arith in
    record {
      moved = s1.0.bytes;
      slotted = s2.0.bytes;
      is_moved = e1;
      size = v2.0;
      is_slotted = rw all at written;
      is_after = e3;
    }

module _ (editor : DataPageEditor) (after : List ℕ) (slot count start end low new_free : ℕ)
    (bytes : AllBytes editor.source)
    (all : (row : ℕ) → row < count → IsEntry editor.source count row)
    (f : Facts editor.source slot count start end low)
    (gap : new_free + (10 + 2 * count) ≡ low + (end - start))
    (m : Moved
      (remove_word editor slot end (end - start))
      editor.source
      after
      (slice editor.source low start)
      slot
      count
      (low + (end - start))
      new_free) where
  abbrev page : List ℕ
  page = editor.source

  abbrev dest : ℕ
  dest = low + (end - start)

  abbrev block : List ℕ
  block = slice page low start

  abbrev word_of : ℕ → Result WriteError ℕ
  word_of = remove_word editor slot end (end - start)

  length-block : length block ≡ start - low
  length-block =
      let size = f.size in
      let below = f.below in
      let top = f.in_page in let ordered = f.ordered in length-slice page low start (omega arith)

  placed : IsPlaced page block slot count dest
  placed =
      let above = f.above in
      let below = f.below in
      let top = f.in_page in
      let ordered = f.ordered in
      record {
        size = f.size;
        has_slot = f.has_slot;
        few = f.few;
        above = omega arith;
        inside = omega (arith, length-block);
      }

  removed_entry : raw_offset after slot ≡ end + 0xc000
  removed_entry =
      let (w, is_word, _) = m.is_slotted.0 slot (omega arith) f.has_slot in
      let few = f.few in
      let has_slot = f.has_slot in
      let top = f.in_page in
      let value =
        remove_word_here editor slot end (end - start) w (omega arith) f.in_page is_word in
      omega (
        arith,
        value,
        entry_written word_of page after block slot count dest new_free placed m slot w
            (omega arith) f.has_slot is_word (omega (arith, value)),
      )

  moved_entry :
      (k : ℕ) → slot < k → k < count → raw_offset after k ≡ raw_offset page k + (end - start)
  moved_entry k lt inside =
      let (w, is_word, _) = m.is_slotted.0 k (omega arith) inside in
      let few = f.few in
      let here = all k inside in
      let (fits, value) =
        remove_word_there editor slot end (end - start) k w (omega arith)
          (λ e. absurd (omega arith)) (u16_at-lt page (10 + 2 * k) bytes) here.known is_word in
      omega (
        arith,
        value,
        entry_written word_of page after block slot count dest new_free placed m k w (omega arith)
            inside is_word (omega (arith, value, fits, u16_at-lt page (10 + 2 * k) bytes)),
      )

  moved_below : (i : ℕ) → low ≤ i → i < start → byte_at after (i + (end - start)) ≡ byte_at page i
  moved_below i lo hi =
      let at : dest + (i - low) ≡ i + (end - start) = omega arith in
      let back : low + (i - low) ≡ i = omega arith in
      ap (λ n. byte_at after n) (sym at)
      ∙ (block_there word_of page after block slot count dest new_free placed m (i - low)
            (omega (arith, length-block))
          ∙ (get_or-slice page low start (i - low) 0 (omega arith) ∙ ap (λ n. byte_at page n) back))

  Moved-IsRemoved : IsRemoved page after slot
  Moved-IsRemoved =
      let starts = f.starts in
      let ends = f.ends in
      let lowest = f.lowest in
      let counted = f.counted in
      let in_page = f.in_page in
      let above = f.above in
      let below = f.below in
      let ordered = f.ordered in
      let same : row_length page slot ≡ end - start = omega arith in
      record {
        has_slot = omega (arith, f.has_slot);
        same_count = count_kept word_of page after block slot count dest new_free placed m;
        slot_deleted = omega (arith, removed_entry);
        before_kept = entry_kept word_of page after block slot count dest new_free placed m;
        behind_moved = λ k lt inside. omega (arith, moved_entry k lt (omega arith));
        above_kept = λ i h.
            moved_above word_of page after block slot count dest new_free placed m i
              (omega (arith, length-block));
        below_moved = λ i lo hi. rw same (moved_below i (omega arith) (omega arith));
        still_packed = omega (
          arith,
          free_written word_of page after block slot count dest new_free placed m (omega arith),
        );
      }

-- On a page of 2048 bytes that was opened, where the limits are `u64` values, a removal that keeps
-- the page deletes just the slot that was asked for: the slot is left empty with the flags of a
-- deleted row, the rows in later slots keep their bytes and move up by the row's length together
-- with their entries, the rows in earlier slots and their entries stay, and the stored free bytes
-- are again the gap below the lowest row.
pub remove-IsRemoved :
    (number owner : PageNumber) (page : List ℕ) (slot : ℕ) (physical : Bool)
    (opening opened b b' : ResourceBudget) (editor : DataPageEditor) (image : PageImage)
    → open_page number owner page opening ≡ done editor opened
    → length page ≡ 2048
    → AllBytes page
    → HasU64Limits b.limits
    → remove editor slot physical b ≡ done (retained image) b'
    → IsRemoved page image.bytes slot
remove-IsRemoved number owner page slot physical opening opened b b' editor image o len bytes u h =
    let (source, _, _) = open_page_rows number owner page opening opened editor o in
    let count = editor.directory.inner.row_count in
    let (e, live, gap, paid, found, _, is_gap, charged, occupied, into) =
      remove_parts editor slot (retained image) physical b b' h in
    let (small, paid', charged', copy) =
      remove_into_parts editor slot image e.start e.end live gap paid b' into in
    let (facts, filled, _, all) =
      open_page-Facts number owner page opening opened editor "data page free-byte count" slot e gap
        o len found is_gap in
    let runs =
      on_copy-done editor.source
        (remove_writes editor slot e.start e.end gap.lowest (gap.free + (e.end - e.start))) paid' b'
        image copy in
    let has_slot = facts.has_slot in
    let below = facts.below in
    let in_page = facts.in_page in
    let moved =
      remove_writes-Moved editor slot e.start e.end gap.lowest (gap.free + (e.end - e.start)) paid'
        (image, b') facts.size
        (limits_after_work (e.start - gap.lowest) paid paid' charged'
          (limits_after_work (2 * count) b paid charged u))
        (omega arith) facts.few (omega arith) runs in
    subst (λ p. IsRemoved p image.bytes slot) source
      (Moved-IsRemoved editor image.bytes slot count e.start e.end gap.lowest
        (gap.free + (e.end - e.start)) (subst AllBytes (sym source) bytes) all facts (omega arith)
        moved)
