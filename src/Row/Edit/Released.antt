-- ===== src/Row/Edit/Released.antt =====
-- `remove` of the last live row releases the page.
use jet3_rs.Common.{
  ℕ, ◌+◌, ◌-◌, ◌*◌, ◌≤◌, ◌<◌, ◌≡◌, arith, List, [], ◌∷◌, length, Bool, ap, sym, ◌∙◌,
  get_or-copy_at_above, get_or-copy_at_below, get_or-copy_at_inside, inl, inr, bit_or,
}
use mathlib.Core.Path.{subst}
use jet3_rs.Common.Bytes.{byte_at, u16_at, u16_at-copy_at, to_le_bytes}
use jet3_rs.Common.Results.{Result, ok, done, ◌>>◌}
use jet3_rs.Format.Geometry.{PageNumber}
use jet3_rs.Format.Resource.{ResourceBudget}
use jet3_rs.Format.Resource.Accounting.{HasU64Limits}
use jet3_rs.Format.DataPageDirectory.{
  declared_row_count, raw_offset, free_space_offset, directory_end_of,
}
use jet3_rs.Format.PageImage.{PageImage}
use jet3_rs.Row.WriteError.{WriteError}
use jet3_rs.Row.DataPage.{DataPageEditor, open_page, write_free}
use jet3_rs.Row.DataPage.Space.{open_page_rows}
use jet3_rs.Row.DataPage.Live.{rows_with_bytes, live_rows-rows_with_bytes}
use jet3_rs.Row.DataPage.Writing.{write_step, one_write, write_then, sequence-done}
use jet3_rs.Row.Insert.Appended.{lowest_of}
use jet3_rs.Row.Insert.Page.{on_copy-done}
use jet3_rs.Row.Edit.{released, remove, release_writes, write_slots, tombstone}
use jet3_rs.Row.Edit.Facts.{row_length, limits_after_work, open_page-Facts}
use jet3_rs.Row.Edit.Parts.{remove_parts, remove_into_released}
use jet3_rs.Row.Edit.Slots.{SlotsWritten, write_slots-output}

-- A released page: it has the tag of released pages, every slot is deleted and empty at the end of
-- the page, and the stored free bytes count the bytes of the row that went; the number of rows and
-- all bytes behind the directory stay.
pub record IsReleased (page after : List ℕ) (slot : ℕ) : Type 0 where
  pub tagged : byte_at after 0 ≡ 9
  pub same_count : declared_row_count after ≡ declared_row_count page
  pub all_deleted : (k : ℕ) → k < declared_row_count page → raw_offset after k ≡ 2048 + 0xc000
  pub bytes_kept :
      (i : ℕ) → directory_end_of (declared_row_count page) ≤ i → byte_at after i ≡ byte_at page i
  pub all_free :
      u16_at after free_space_offset + directory_end_of (declared_row_count page)
      ≡ lowest_of page + row_length page slot

abbrev deleted_word : ℕ → Result WriteError ℕ
deleted_word k = ok (bit_or tombstone 2048)

deleted_entry :
    (before mid after : List ℕ) (count k : ℕ)
    → SlotsWritten deleted_word 0 count before mid
    → k < count
    → byte_at after (10 + 2 * k) ≡ byte_at mid (10 + 2 * k)
    → byte_at after (10 + 2 * k + 1) ≡ byte_at mid (10 + 2 * k + 1)
    → raw_offset after k ≡ 2048 + 0xc000
deleted_entry before mid after count k written lt low high =
    let (w, is_word, there) = written.0 k (omega arith) lt in
    let value : w ≡ 2048 + 0xc000 = cc is_word in omega (arith, there (omega arith), low, high)

release_writes-IsReleased :
    (page : List ℕ) (slot new_free : ℕ) (budget : ResourceBudget) (s : PageImage × ResourceBudget)
    → length page ≡ 2048
    → HasU64Limits budget.limits
    → declared_row_count page ≤ 256
    → new_free < 65536
    → new_free + directory_end_of (declared_row_count page) ≡ lowest_of page + row_length page slot
    → release_writes (declared_row_count page) new_free (record { bytes = page }, budget)
      ≡ done tt s
    → IsReleased page s.0.bytes slot
unfolding release_writes write_free
release_writes-IsReleased page slot new_free budget s len u few small free h =
    let count = declared_row_count page in
    let slots = write_slots deleted_word count 0 in
    let number = to_le_bytes 2 new_free in
    let (s1, v1, e1, h1) =
      write_then 0 (9 ∷ []) (slots >> write_step 2 number) (record { bytes = page }, budget) s
        (omega arith) (len, u) h in
    let (s2, h2, h3) = sequence-done slots (write_step 2 number) s1 s h1 in
    let (v2, written) = write_slots-output deleted_word count 0 s1 s2 (omega arith) v1 h2 in
    let all : 0 + count ≡ count = omega arith in
    let (_, e3) = one_write 2 number s2 s (omega arith) v2 h3 in
    let behind : ((i : ℕ) → 4 ≤ i → byte_at s.0.bytes i ≡ byte_at s2.0.bytes i) =
      λ i lo. ap (λ xs. byte_at xs i) e3 ∙ get_or-copy_at_above s2.0.bytes 2 number i 0 lo in
    let tag : ((i : ℕ) → 1 ≤ i → byte_at s1.0.bytes i ≡ byte_at page i) =
      λ i lo. ap (λ xs. byte_at xs i) e1 ∙ get_or-copy_at_above page 0 (9 ∷ []) i 0 lo in
    record {
      tagged =
          ap (λ xs. byte_at xs 0) e3
          ∙ (get_or-copy_at_below s2.0.bytes 2 number 0 0 (omega arith)
              ∙ (written.1 0 (inl (omega arith))
                  ∙ (ap (λ xs. byte_at xs 0) e1
                      ∙ get_or-copy_at_inside page 0 (9 ∷ []) 0 0 (omega arith) (omega arith)
                          (omega arith))));
      same_count = omega (
        arith,
        behind 8 (omega arith),
        behind 9 (omega arith),
        written.1 8 (inl (omega arith)),
        written.1 9 (inl (omega arith)),
        tag 8 (omega arith),
        tag 9 (omega arith),
      );
      all_deleted = λ k lt.
          deleted_entry s1.0.bytes s2.0.bytes s.0.bytes count k (rw all at written) lt
            (behind (10 + 2 * k) (omega arith)) (behind (10 + 2 * k + 1) (omega arith));
      bytes_kept =
          λ i h. behind i (omega arith) ∙ (written.1 i (inr (omega arith)) ∙ tag i (omega arith));
      all_free = omega (
        arith,
        ap (λ xs. u16_at xs 2) e3,
        u16_at-copy_at s2.0.bytes 2 new_free (omega (arith, v2.0)) small,
      );
    }

-- On a page of 2048 bytes that was opened, where the limits are `u64` values, a removal that
-- releases the page was of a slot of the page, and the page had one row with bytes; the page then
-- has the tag of released pages, all its slots are deleted, and its free bytes count the row that
-- went.
pub remove-IsReleased :
    (number owner : PageNumber) (page : List ℕ) (slot : ℕ) (physical : Bool)
    (opening opened b b' : ResourceBudget) (editor : DataPageEditor) (image : PageImage)
    → open_page number owner page opening ≡ done editor opened
    → length page ≡ 2048
    → HasU64Limits b.limits
    → remove editor slot physical b ≡ done (released image) b'
    → (slot < declared_row_count page)
      × (rows_with_bytes page (declared_row_count page) 0 ≡ 1)
      × IsReleased page image.bytes slot
remove-IsReleased number owner page slot physical opening opened b b' editor image o len u h =
    let (source, rows, _) = open_page_rows number owner page opening opened editor o in
    let count = editor.directory.inner.row_count in
    let (e, live, gap, paid, found, counted, is_gap, charged, occupied, into) =
      remove_parts editor slot (released image) physical b b' h in
    let (one, small, copy) =
      remove_into_released editor slot image e.start e.end live gap paid b' into in
    let (facts, filled, _, _) =
      open_page-Facts number owner page opening opened editor "data page free-byte count" slot e gap
        o len found is_gap in
    let with_bytes =
      live_rows-rows_with_bytes editor physical "page contains an unsupported row slot" live
        facts.few counted in
    let starts = facts.starts in
    let ends = facts.ends in
    let lowest = facts.lowest in
    let same = facts.counted in
    let has_slot = facts.has_slot in
    let few = facts.few in
    let runs =
      on_copy-done editor.source (release_writes count (gap.free + (e.end - e.start))) paid b' image
        copy in
    let result =
      release_writes-IsReleased editor.source slot (gap.free + (e.end - e.start)) paid (image, b')
        facts.size (limits_after_work (2 * count) b paid charged u) (omega arith) small
        (omega arith) (rw same at runs) in
    subst
      (λ p.
        (slot < declared_row_count p)
        × (rows_with_bytes p (declared_row_count p) 0 ≡ 1)
        × IsReleased p image.bytes slot)
      source (omega arith, rw (← same) (sym with_bytes ∙ one), result)
