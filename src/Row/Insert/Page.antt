-- ===== src/Row/Insert/Page.antt =====
-- What `append` leaves on the page.
use jet3_rs.Common.{
  ℕ, ◌+◌, ◌-◌, ◌%◌, ◌^◌, ◌≤◌, ◌<◌, ◌≡◌, refl, arith, List, length, Option, some, bit_or,
}
use jet3_rs.Common.Results.{Result, ok, err, Outcome, done, fail, Op}
use jet3_rs.Format.Error.{Error}
use jet3_rs.Format.Resource.{ResourceBudget, charge_items}
use jet3_rs.Format.PageImage.{PageImage}
use jet3_rs.Row.Slot.{RowSlot, flags, check_length}
use jet3_rs.Row.WriteError.{WriteError}
use jet3_rs.Row.DataPage.{DataPageEditor, Packed, packed}
use jet3_rs.Row.Insert.{append_writes, append_into, append, on_copy, copied, state_or_ordinary}

-- A row that `append_into` places.
pub append_into_parts :
    (editor : DataPageEditor) (row : List ℕ) (state : RowSlot) (gap : Packed)
    (b b' : ResourceBudget) (image : PageImage) (slot : ℕ)
    → append_into editor row state gap b ≡ done (some (image, slot)) b'
    → let count = editor.directory.inner.row_count in
      let start = gap.lowest - length row in
      (check_length state (length row) ≡ ok tt)
      × (length row + 2 ≤ gap.free)
      × (count < 255)
      × (length row ≤ gap.lowest)
      × (start < 2 ^ 16)
      × (on_copy editor.source
            (append_writes row start count
              (bit_or start (flags state))
              (gap.free - (length row + 2)))
            b
          ≡ done image b')
      × (slot ≡ count % 256)
unfolding append_into
append_into_parts editor row state gap b b' image slot h = ground arith

pub append_parts :
    (editor : DataPageEditor) (row : List ℕ) (physical : Option RowSlot) (b b' : ResourceBudget)
    (image : PageImage) (slot : ℕ)
    → append editor row physical b ≡ done (some (image, slot)) b'
    → (paid : ResourceBudget) × (gap : Packed) × (charge_items editor.directory.inner.row_count b
        ≡ done tt paid)
      × (packed editor "data page free-byte count" ≡ ok gap)
      × (append_into editor row (state_or_ordinary physical) gap paid
          ≡ done (some (image, slot)) b')
unfolding append
append_parts editor row physical b b' image slot h =
    by_outcomes (charge_items editor.directory.inner.row_count b)
      (packed editor "data page free-byte count") refl refl
  where
    by_outcomes :
        (o : Outcome Error ResourceBudget (Unit {0})) (r : Result WriteError Packed)
        → charge_items editor.directory.inner.row_count b ≡ o
        → packed editor "data page free-byte count" ≡ r
        → (paid : ResourceBudget) × (gap : Packed) × (charge_items editor.directory.inner.row_count
              b
            ≡ done tt paid)
          × (packed editor "data page free-byte count" ≡ ok gap)
          × (append_into editor row (state_or_ordinary physical) gap paid
              ≡ done (some (image, slot)) b')
    by_outcomes (done t paid) (ok gap) e1 e2 = (paid, gap, e1, e2, ground (arith, h, e1, e2))
    by_outcomes (done t paid) (err x) e1 e2 = absurd (ground (arith, h, e1, e2))
    by_outcomes (fail x paid) r e1 e2 = absurd (ground (arith, h, e1, e2))

copied-done :
    (o : Outcome WriteError (PageImage × ResourceBudget) (Unit {0})) (b' : ResourceBudget)
    (image : PageImage)
    → copied o ≡ done image b'
    → o ≡ done tt (image, b')
copied-done (done t s) b' image h = cc h
copied-done (fail x s) b' image h = cc h

pub on_copy-done :
    (source : List ℕ) (m : Op WriteError (PageImage × ResourceBudget) (Unit {0}))
    (b b' : ResourceBudget) (image : PageImage)
    → on_copy source m b ≡ done image b'
    → m (record { bytes = source }, b) ≡ done tt (image, b')
on_copy-done source m b b' image h = copied-done (m (record { bytes = source }, b)) b' image h
