-- ===== src/Row/Edit/Moved.antt =====
-- The bytes of a page after rows were moved on it and the slots and the free bytes were written.
use jet3_rs.Common.{
  ℕ, ◌+◌, ◌*◌, ◌≤◌, ◌<◌, ◌≡◌, arith, List, length, ap, ◌∙◌, copy_at, get_or-copy_at_plus,
  get_or-copy_at_above, get_or-copy_at_below, inl, inr,
}
use jet3_rs.Common.Bytes.{byte_at, u16_at, u16_at-copy_at, to_le_bytes}
use jet3_rs.Common.Results.{Result, ok}
use jet3_rs.Format.DataPageDirectory.{declared_row_count, raw_offset, free_space_offset}
use jet3_rs.Row.WriteError.{WriteError}
use jet3_rs.Row.Edit.Slots.{SlotsWritten}

-- Some bytes were written at a place of the page, then the slots from one on, and then the free
-- bytes.
pub record Moved (word_of : ℕ → Result WriteError ℕ) (page after block : List ℕ)
    (slot count dest new_free : ℕ) : Type 0 where
  pub moved : List ℕ
  pub slotted : List ℕ
  pub is_moved : moved ≡ copy_at page dest block
  pub size : length slotted ≡ 2048
  pub is_slotted : SlotsWritten word_of slot count moved slotted
  pub is_after : after ≡ copy_at slotted 2 (to_le_bytes 2 new_free)

-- The place lies between the directory and the end of the page.
pub record IsPlaced (page block : List ℕ) (slot count dest : ℕ) : Type 0 where
  pub size : length page ≡ 2048
  pub has_slot : slot < count
  pub few : count ≤ 256
  pub above : 10 + 2 * count ≤ dest
  pub inside : dest + length block ≤ 2048

module _ (word_of : ℕ → Result WriteError ℕ) (page after block : List ℕ)
    (slot count dest new_free : ℕ) (f : IsPlaced page block slot count dest)
    (m : Moved word_of page after block slot count dest new_free) where
  -- Behind the directory, the page is the one with the moved bytes.
  behind_directory : (i : ℕ) → 10 + 2 * count ≤ i → byte_at after i ≡ byte_at m.moved i
  behind_directory i h =
      ap (λ xs. byte_at xs i) m.is_after
      ∙ (get_or-copy_at_above m.slotted 2 (to_le_bytes 2 new_free) i 0 (omega arith)
          ∙ m.is_slotted.1 i (inr h))

  pub moved_above : (i : ℕ) → dest + length block ≤ i → byte_at after i ≡ byte_at page i
  moved_above i h =
      let above = f.above in
      behind_directory i (omega arith)
      ∙ (ap (λ xs. byte_at xs i) m.is_moved ∙ get_or-copy_at_above page dest block i 0 h)

  pub block_there : (j : ℕ) → j < length block → byte_at after (dest + j) ≡ byte_at block j
  block_there j h =
      let size = f.size in
      let above = f.above in
      let inside = f.inside in
      behind_directory (dest + j) (omega arith)
      ∙ (ap (λ xs. byte_at xs (dest + j)) m.is_moved
          ∙ get_or-copy_at_plus page dest block j 0 (omega arith) h)

  -- Before the slot's entry, only the free bytes change.
  pub in_header : (i : ℕ) → 4 ≤ i → i < 10 + 2 * slot → byte_at after i ≡ byte_at page i
  in_header i lo hi =
      let above = f.above in
      let has_slot = f.has_slot in
      ap (λ xs. byte_at xs i) m.is_after
      ∙ (get_or-copy_at_above m.slotted 2 (to_le_bytes 2 new_free) i 0 (omega arith)
          ∙ (m.is_slotted.1 i (inl hi)
              ∙ (ap (λ xs. byte_at xs i) m.is_moved
                  ∙ get_or-copy_at_below page dest block i 0 (omega arith))))

  pub count_kept : declared_row_count after ≡ declared_row_count page
  count_kept =
      omega
        (arith, in_header 8 (omega arith) (omega arith), in_header 9 (omega arith) (omega arith))

  pub entry_kept : (k : ℕ) → k < slot → raw_offset after k ≡ raw_offset page k
  entry_kept k lt = omega (
    arith,
    in_header (10 + 2 * k) (omega arith) (omega arith),
    in_header (10 + 2 * k + 1) (omega arith) (omega arith),
  )

  -- An entry from the slot on.
  pub entry_written :
      (k w : ℕ) → slot ≤ k → k < count → word_of k ≡ ok w → w < 65536 → raw_offset after k ≡ w
  entry_written k w lo hi is_word small =
      let (w', found, there) = m.is_slotted.0 k lo hi in
      let same : w' ≡ w = cc (found, is_word) in
      let here = there (omega arith) in
      let low_byte = ap (λ xs. byte_at xs (10 + 2 * k)) m.is_after in
      let high_byte = ap (λ xs. byte_at xs (10 + 2 * k + 1)) m.is_after in
      omega (
        arith,
        same,
        here,
        low_byte,
        high_byte,
        get_or-copy_at_above m.slotted 2 (to_le_bytes 2 new_free) (10 + 2 * k) 0 (omega arith),
        get_or-copy_at_above m.slotted 2 (to_le_bytes 2 new_free) (10 + 2 * k + 1) 0 (omega arith),
      )

  pub free_written : new_free < 65536 → u16_at after free_space_offset ≡ new_free
  free_written small =
      rw m.is_after (u16_at-copy_at m.slotted 2 new_free (omega (arith, m.size)) small)
