-- ===== src/Row/Insert/Bytes.antt =====
-- The bytes of the page after the four writes of `append`.
use jet3_rs.Common.{
  ℕ, ◌+◌, ◌*◌, ◌≤◌, ◌<◌, ◌≡◌, arith, List, length, slice, copy_at, length-copy_at,
  get_or-copy_at_above, get_or-copy_at_below, slice-copy_at, ◌∙◌, sym,
}
use jet3_rs.Common.Bytes.{byte_at, u16_at, u16_at-copy_at, to_le_bytes}
use jet3_rs.Format.DataPageDirectory.{declared_row_count, raw_offset, free_space_offset}
use jet3_rs.Format.PageImage.Contents.{slice_agree}
use jet3_rs.Row.Insert.Writes.{appended_page}

module _ (page row : List ℕ) (start count word new_free : ℕ) (len : length page ≡ 2048)
    (few : count ≤ 254) (room : 12 + 2 * count ≤ start) (fits : start + length row ≤ 2048) where
  abbrev with_row : List ℕ
  with_row = copy_at page start row

  abbrev with_entry : List ℕ
  with_entry = copy_at with_row (10 + 2 * count) (to_le_bytes 2 word)

  abbrev with_free : List ℕ
  with_free = copy_at with_entry 2 (to_le_bytes 2 new_free)

  abbrev after : List ℕ
  after = appended_page page row start count word new_free

  length-row : length with_row ≡ 2048
  length-row = length-copy_at page start row ∙ len

  length-entry : length with_entry ≡ 2048
  length-entry = length-copy_at with_row (10 + 2 * count) (to_le_bytes 2 word) ∙ length-row

  length-free : length with_free ≡ 2048
  length-free = length-copy_at with_entry 2 (to_le_bytes 2 new_free) ∙ length-entry

  length-after : length after ≡ 2048
  length-after = length-copy_at with_free 8 (to_le_bytes 2 (count + 1)) ∙ length-free

  -- Behind the header, the last two writes change nothing.
  behind_header : (i : ℕ) → 10 ≤ i → byte_at after i ≡ byte_at with_entry i
  behind_header i h =
      get_or-copy_at_above with_free 8 (to_le_bytes 2 (count + 1)) i 0 (omega arith)
      ∙ get_or-copy_at_above with_entry 2 (to_le_bytes 2 new_free) i 0 (omega arith)

  -- Behind the directory, neither does the second.
  behind_directory : (i : ℕ) → 12 + 2 * count ≤ i → byte_at after i ≡ byte_at with_row i
  behind_directory i h =
      behind_header i (omega arith)
      ∙ get_or-copy_at_above with_row (10 + 2 * count) (to_le_bytes 2 word) i 0 (omega arith)

  entry_kept : (i : ℕ) → 10 ≤ i → i < 10 + 2 * count → byte_at after i ≡ byte_at page i
  entry_kept i lo hi =
      behind_header i lo
      ∙ (get_or-copy_at_below with_row (10 + 2 * count) (to_le_bytes 2 word) i 0 hi
          ∙ get_or-copy_at_below page start row i 0 (omega arith))

  pub row_kept : (i : ℕ) → start + length row ≤ i → byte_at after i ≡ byte_at page i
  row_kept i h = behind_directory i (omega arith) ∙ get_or-copy_at_above page start row i 0 h

  pub raw_offset_kept : (k : ℕ) → k < count → raw_offset after k ≡ raw_offset page k
  raw_offset_kept k h = omega (
    arith,
    entry_kept (10 + 2 * k) (omega arith) (omega arith),
    entry_kept (10 + 2 * k + 1) (omega arith) (omega arith),
  )

  pub raw_offset_new : word < 65536 → raw_offset after count ≡ word
  raw_offset_new h = omega (
    arith,
    behind_header (10 + 2 * count) (omega arith),
    behind_header (10 + 2 * count + 1) (omega arith),
    u16_at-copy_at with_row (10 + 2 * count) word (omega (arith, length-row)) h,
  )

  pub row_new : slice after start (start + length row) ≡ row
  row_new =
      slice_agree after with_row start (start + length row) (length-after ∙ sym length-row)
        (omega (arith, length-after)) (λ i lo hi. behind_directory i (omega arith))
      ∙ slice-copy_at page start row (omega arith)

  pub count_new : declared_row_count after ≡ count + 1
  count_new = u16_at-copy_at with_free 8 (count + 1) (omega (arith, length-free)) (omega arith)

  pub free_new : new_free < 65536 → u16_at after free_space_offset ≡ new_free
  free_new h = omega (
    arith,
    get_or-copy_at_below with_free 8 (to_le_bytes 2 (count + 1)) 2 0 (omega arith),
    get_or-copy_at_below with_free 8 (to_le_bytes 2 (count + 1)) 3 0 (omega arith),
    u16_at-copy_at with_entry 2 new_free (omega (arith, length-entry)) h,
  )
