-- ===== src/Row/Edit/Replacing.antt =====
-- What `replace` did when it gives a page, and the words that it gives to the slots.
use jet3_rs.Common.{
  ℕ, ◌+◌, ◌-◌, ◌*◌, ◌%◌, ◌≤◌, ◌<◌, ◌≡◌, refl, arith, List, Option, none, some, length, ap, bit_or,
}
use jet3_rs.Common.Results.{and_then-eq_ok, Result, ok, err, Outcome, done, fail}
use jet3_rs.Format.Error.{Error}
use jet3_rs.Format.Resource.{ResourceBudget, charge_work_units}
use jet3_rs.Format.DataPageDirectory.{raw_offset}
use jet3_rs.Format.DataPageDirectory.Shape.{start_of, end_of, unknown_bit}
use jet3_rs.Format.PageImage.{PageImage}
use jet3_rs.Row.Directory.{RowEntry}
use jet3_rs.Row.Slot.{RowSlot, flags, read}
use jet3_rs.Row.Slot.Flags.{flags-read, or_flags}
use jet3_rs.Row.WriteError.{WriteError}
use jet3_rs.Row.DataPage.{DataPageEditor, Packed, entry, live_rows, packed}
use jet3_rs.Row.Insert.{on_copy, is_some, state_or_ordinary}
use jet3_rs.Row.Edit.{shifted, replace, replace_into, replace_writes, replace_word}
use jet3_rs.Row.Edit.Words.{entry_word}

module _ (editor : DataPageEditor) (slot : ℕ) (row : List ℕ) (image : PageImage) where
  -- The page that comes from the copy is the one that is given.
  pub replace_into_parts :
      (start end : ℕ) (state : RowSlot) (gap : Packed) (new_free : ℕ) (b b' : ResourceBudget)
      → replace_into editor slot start end row state gap new_free b ≡ done (some image) b'
      → (length row ≤ end)
        × (paid : ResourceBudget) × (charge_work_units (start - gap.lowest) b ≡ done tt paid)
        × (on_copy editor.source (replace_writes editor slot start end row state gap new_free) paid
            ≡ done image b')
  unfolding replace_into
  replace_into_parts start end state gap new_free b b' h =
      by_charge (charge_work_units (start - gap.lowest) b) refl
    where
      copy_of : ResourceBudget → Outcome WriteError ResourceBudget PageImage
      copy_of paid =
          on_copy editor.source (replace_writes editor slot start end row state gap new_free) paid

      by_copy :
          (paid : ResourceBudget) (o : Outcome WriteError ResourceBudget PageImage)
          → charge_work_units (start - gap.lowest) b ≡ done tt paid
          → copy_of paid ≡ o
          → (length row ≤ end) × (copy_of paid ≡ done image b')
      by_copy paid (done out end_b) e1 e2 = ground (arith, h, e1, e2)
      by_copy paid (fail x end_b) e1 e2 = absurd (ground (arith, h, e1, e2))

      by_charge :
          (o : Outcome Error ResourceBudget (Unit {0}))
          → charge_work_units (start - gap.lowest) b ≡ o
          → (length row ≤ end)
            × (paid : ResourceBudget) × (charge_work_units (start - gap.lowest) b ≡ done tt paid)
            × (copy_of paid ≡ done image b')
      by_charge (done t paid) e =
          let (fits, copy) = by_copy paid (copy_of paid) e refl in (fits, paid, e, copy)
      by_charge (fail x paid) e = absurd (ground (arith, h, e))

  abbrev pub ReplaceParts : Option RowSlot → ResourceBudget → ResourceBudget → Type 0
  ReplaceParts physical b b' =
      (e : RowEntry) × (gap : Packed) × (paid : ResourceBudget) × (new_free : ℕ) × (entry editor
          slot
        ≡ ok e)
      × (packed editor "replacement free-byte count" ≡ ok gap)
      × (charge_work_units (2 * editor.directory.inner.row_count) b ≡ done tt paid)
      × (new_free + length row ≡ gap.free + (e.end - e.start))
      × (replace_into editor slot e.start e.end row (state_or_ordinary physical) gap new_free paid
          ≡ done (some image) b')

  pub replace_parts :
      (physical : Option RowSlot) (b b' : ResourceBudget)
      → replace editor slot row physical b ≡ done (some image) b'
      → ReplaceParts physical b b'
  unfolding replace
  replace_parts physical b b' h =
      by_entry (entry editor slot) (charge_work_units (2 * editor.directory.inner.row_count) b)
        (live_rows editor (is_some physical) "replacement page contains an unsupported row slot")
        (packed editor "replacement free-byte count") refl refl refl refl
    where
      by_shift :
          (e : RowEntry) (kind : RowSlot) (gap : Packed) (paid : ResourceBudget) (live : ℕ)
          (new : Option ℕ)
          → entry editor slot ≡ ok e
          → read e ≡ ok kind
          → charge_work_units (2 * editor.directory.inner.row_count) b ≡ done tt paid
          → live_rows editor (is_some physical) "replacement page contains an unsupported row slot"
            ≡ ok live
          → packed editor "replacement free-byte count" ≡ ok gap
          → shifted gap.free (e.end - e.start) (length row) ≡ new
          → ReplaceParts physical b b'
      by_shift e kind gap paid live (some n) e1 e5 e2 e3 e4 e6 = (
        e,
        gap,
        paid,
        n,
        e1,
        e4,
        e2,
        ground (arith, e6),
        ground (arith, h, e1, e2, e3, e4, e5, e6),
      )
      by_shift e kind gap paid live none e1 e5 e2 e3 e4 e6 =
          absurd (ground (arith, h, e1, e2, e3, e4, e5, e6))

      by_read :
          (e : RowEntry) (r : Result WriteError RowSlot)
          (o : Outcome Error ResourceBudget (Unit {0})) (l : Result WriteError ℕ)
          (p : Result WriteError Packed)
          → entry editor slot ≡ ok e
          → read e ≡ r
          → charge_work_units (2 * editor.directory.inner.row_count) b ≡ o
          → live_rows editor (is_some physical) "replacement page contains an unsupported row slot"
            ≡ l
          → packed editor "replacement free-byte count" ≡ p
          → ReplaceParts physical b b'
      by_read e (ok kind) (done t paid) (ok live) (ok gap) e1 e5 e2 e3 e4 =
          by_shift e kind gap paid live (shifted gap.free (e.end - e.start) (length row)) e1 e5 e2
            e3 e4 refl
      by_read e (err x) o l p e1 e5 e2 e3 e4 = absurd (ground (arith, h, e1, e5))
      by_read e (ok kind) (fail x paid) l p e1 e5 e2 e3 e4 = absurd (ground (arith, h, e1, e2, e5))
      by_read e (ok kind) (done t paid) (err x) p e1 e5 e2 e3 e4 =
          absurd (ground (arith, h, e1, e2, e3, e5))
      by_read e (ok kind) (done t paid) (ok live) (err x) e1 e5 e2 e3 e4 =
          absurd (ground (arith, h, e1, e2, e3, e4, e5))

      by_entry :
          (r : Result WriteError RowEntry) (o : Outcome Error ResourceBudget (Unit {0}))
          (l : Result WriteError ℕ) (p : Result WriteError Packed)
          → entry editor slot ≡ r
          → charge_work_units (2 * editor.directory.inner.row_count) b ≡ o
          → live_rows editor (is_some physical) "replacement page contains an unsupported row slot"
            ≡ l
          → packed editor "replacement free-byte count" ≡ p
          → ReplaceParts physical b b'
      by_entry (ok e) o l p e1 e2 e3 e4 = by_read e (read e) o l p e1 refl e2 e3 e4
      by_entry (err x) o l p e1 e2 e3 e4 = absurd (ground (arith, h, e1))

module _ (editor : DataPageEditor) (slot : ℕ) (state : RowSlot) (old new : ℕ) where
  replace_entry :
      (k w : ℕ)
      → replace_word editor slot state old new k ≡ ok w
      → (e : RowEntry) × (entry editor (k % 256) ≡ ok e)
  unfolding replace_word
  replace_entry k w h =
      let (e, found, _) = and_then-eq_ok (entry editor (k % 256)) _ h in (e, found)

  replace_word_at :
      (w : ℕ) (e : RowEntry)
      → entry editor (slot % 256) ≡ ok e
      → replace_word editor slot state old new slot ≡ ok w
      → (new ≤ e.start + old)
        × (e.start + old ≤ 2048 + new)
        × (w ≡ bit_or (e.start + old - new) (flags state))
  unfolding replace_word
  replace_word_at w e found h = ground (arith, h, found)

  replace_word_behind :
      (k w : ℕ) (e : RowEntry)
      → ¬ (k ≡ slot)
      → entry editor (k % 256) ≡ ok e
      → replace_word editor slot state old new k ≡ ok w
      → (kind : RowSlot) × (read e ≡ ok kind)
        × (new ≤ e.start + old)
        × (e.start + old ≤ 2048 + new)
        × (w ≡ bit_or (e.start + old - new) (flags kind))
  unfolding replace_word
  replace_word_behind k w e apart found h = by_kind (read e) refl
    where
      by_kind :
          (r : Result WriteError RowSlot)
          → read e ≡ r
          → (kind : RowSlot) × (read e ≡ ok kind)
            × (new ≤ e.start + old)
            × (e.start + old ≤ 2048 + new)
            × (w ≡ bit_or (e.start + old - new) (flags kind))
      by_kind (ok kind) is_kind = (
        kind,
        is_kind,
        ground (arith, h, found, is_kind),
        ground (arith, h, found, is_kind),
        ground (arith, h, found, is_kind),
      )
      by_kind (err x) is_kind = absurd (ground (arith, h, found, is_kind))

  pub replace_word_here :
      (w : ℕ)
      → slot < 256
      → replace_word editor slot state old new slot ≡ ok w
      → (w + new ≡ start_of (raw_offset editor.source slot) + old + flags state)
        × (start_of (raw_offset editor.source slot) + old ≤ 2048 + new)
  replace_word_here w lt h =
      let (e, found) = replace_entry slot w h in
      let same : slot % 256 ≡ slot = omega arith in
      let shape = entry_word editor slot e (rw same at found) in
      let (covers, inside, is_word) = replace_word_at w e found h in
      let start : e.start ≡ start_of (raw_offset editor.source slot) =
        ap (λ (x : RowEntry). x.start) shape in
      (
        omega (arith, is_word, or_flags state (e.start + old - new) (omega arith), start),
        omega arith,
      )

  pub replace_word_there :
      (k w : ℕ)
      → k < 256
      → ¬ (k ≡ slot)
      → raw_offset editor.source k < 65536
      → unknown_bit (raw_offset editor.source k) ≡ 0
      → replace_word editor slot state old new k ≡ ok w
      → (w + new ≡ raw_offset editor.source k + old)
        × (start_of (raw_offset editor.source k) + old ≤ 2048 + new)
  replace_word_there k w lt apart word known h =
      let (e, found) = replace_entry k w h in
      let same : k % 256 ≡ k = omega arith in
      let shape = entry_word editor k e (rw same at found) in
      let (kind, is_kind, covers, inside, is_word) = replace_word_behind k w e apart found h in
      let bits =
        flags-read (record { page = editor.directory.page; slot = k }) (raw_offset editor.source k)
          (start_of (raw_offset editor.source k)) (end_of editor.source k) kind
          (rw shape at is_kind) in
      let start : e.start ≡ start_of (raw_offset editor.source k) =
        ap (λ (x : RowEntry). x.start) shape in
      (
        omega (
          arith,
          is_word,
          or_flags kind (e.start + old - new) (omega arith),
          bits,
          start,
          known,
          word,
        ),
        omega arith,
      )
