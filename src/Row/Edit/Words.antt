-- ===== src/Row/Edit/Words.antt =====
-- The words that the slots are given when a row is removed.
use jet3_rs.Common.{ℕ, ◌+◌, ◌%◌, ◌≤◌, ◌<◌, ◌≡◌, refl, arith, bit_or, ap}
use jet3_rs.Common.Results.{Result, ok, err, and_then-eq_ok}
use jet3_rs.Format.DataPageDirectory.{raw_offset, has_flag}
use jet3_rs.Format.DataPageDirectory as Common_directory
use jet3_rs.Format.DataPageDirectory.Rows.{entry_end-end_of}
use jet3_rs.Format.DataPageDirectory.Shape.{start_of, end_of, unknown_bit, masked_start}
use jet3_rs.Row.Directory.{RowEntry, RowLocator}
use jet3_rs.Row.Directory as Row_directory
use jet3_rs.Row.Slot.{RowSlot, flags, read, deleted}
use jet3_rs.Row.Slot.Flags.{entry_of_word, flags-read, or_flags}
use jet3_rs.Row.WriteError.{WriteError}
use jet3_rs.Row.DataPage.{DataPageEditor, entry}
use jet3_rs.Row.Edit.{remove_word}

-- The entry of a row, by its word and the word before.
pub entry_word :
    (editor : DataPageEditor) (row : ℕ) (e : RowEntry)
    → entry editor row ≡ ok e
    → e
      ≡ entry_of_word
          (record { page = editor.directory.page; slot = row })
          (raw_offset editor.source row)
          (start_of (raw_offset editor.source row))
          (end_of editor.source row)
unfolding entry Row_directory.entry Common_directory.entry
entry_word editor row e h =
    ground (arith, masked_start (raw_offset editor.source row), entry_end-end_of editor.source row)

module _ (editor : DataPageEditor) (slot end removed : ℕ) where
  pub remove_word_here :
      (w : ℕ)
      → slot < 256
      → end ≤ 2048
      → remove_word editor slot end removed slot ≡ ok w
      → w ≡ end + 0xc000
  unfolding remove_word flags
  remove_word_here w lt inside h =
      let (e, found, after) = and_then-eq_ok (entry editor (slot % 256)) _ h in
      ground (arith, after, or_flags deleted end inside)

  -- What the word of another slot is put together from.
  remove_word_parts :
      (k w : ℕ) (e : RowEntry)
      → ¬ (k ≡ slot)
      → entry editor (k % 256) ≡ ok e
      → remove_word editor slot end removed k ≡ ok w
      → (kind : RowSlot) × (read e ≡ ok kind)
        × (e.start + removed ≤ 2048)
        × (w ≡ bit_or (e.start + removed) (flags kind))
  unfolding remove_word
  remove_word_parts k w e apart found h = by_kind (read e) refl
    where
      by_kind :
          (r : Result WriteError RowSlot)
          → read e ≡ r
          → (kind : RowSlot) × (read e ≡ ok kind)
            × (e.start + removed ≤ 2048)
            × (w ≡ bit_or (e.start + removed) (flags kind))
      by_kind (ok kind) is_kind =
          (kind, is_kind, ground (arith, h, found, is_kind), ground (arith, h, found, is_kind))
      by_kind (err x) is_kind = absurd (ground (arith, h, found, is_kind))

  no_entry :
      (k w : ℕ) (x : WriteError)
      → entry editor (k % 256) ≡ err x
      → ¬ (remove_word editor slot end removed k ≡ ok w)
  unfolding remove_word
  no_entry k w x found h = ground (arith, h, found)

  pub remove_word_there :
      (k w : ℕ)
      → k < 256
      → ¬ (k ≡ slot)
      → raw_offset editor.source k < 65536
      → unknown_bit (raw_offset editor.source k) ≡ 0
      → remove_word editor slot end removed k ≡ ok w
      → (start_of (raw_offset editor.source k) + removed ≤ 2048)
        × (w ≡ raw_offset editor.source k + removed)
  remove_word_there k w lt apart word known h =
      let (e, found) = some_entry (entry editor (k % 256)) refl h in
      let same : k % 256 ≡ k = omega arith in
      let shape = entry_word editor k e (rw same at found) in
      let (kind, is_kind, inside, is_word) = remove_word_parts k w e apart found h in
      let bits =
        flags-read (record { page = editor.directory.page; slot = k }) (raw_offset editor.source k)
          (start_of (raw_offset editor.source k)) (end_of editor.source k) kind
          (rw shape at is_kind) in
      let start : e.start ≡ start_of (raw_offset editor.source k) =
        ap (λ (x : RowEntry). x.start) shape in
      (
        omega arith,
        omega (arith, is_word, or_flags kind (e.start + removed) inside, bits, start, known, word),
      )
    where
      some_entry :
          (r : Result WriteError RowEntry)
          → entry editor (k % 256) ≡ r
          → remove_word editor slot end removed k ≡ ok w
          → (e : RowEntry) × (entry editor (k % 256) ≡ ok e)
      some_entry (ok e) found h = (e, found)
      some_entry (err x) found h = absurd (no_entry k w x found h)
