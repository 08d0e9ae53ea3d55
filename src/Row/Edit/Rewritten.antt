-- ===== src/Row/Edit/Rewritten.antt =====
-- The writes of `replace`, one after the other.
use jet3_rs.Common.{
  ℕ, zero, suc, ◌+◌, ◌-◌, ◌<◌, ◌≡◌, refl, arith, List, [], ◌∷◌, ◌++◌, length, slice, copy_at,
  length-slice, ap, ◌∙◌, get_or,
}
use jet3_rs.Common.Bytes.{to_le_bytes}
use jet3_rs.Common.Results.{ok, done, ◌>>◌, ◌>>=◌, lift, ok_or}
use jet3_rs.Format.Resource.{ResourceBudget}
use jet3_rs.Format.Resource.Accounting.{HasU64Limits}
use jet3_rs.Format.Writer.Sequences.{copy_at-copy_at}
use jet3_rs.Format.PageImage.{PageImage}
use jet3_rs.Row.WriteError.{WriteError, mismatch}
use jet3_rs.Row.Slot.{RowSlot}
use jet3_rs.Row.DataPage.{DataPageEditor, Packed, write_free}
use jet3_rs.Row.DataPage.Writing.{Step, write_step, one_write, write_then, sequence-done}
use jet3_rs.Row.Insert.{as_u16}
use jet3_rs.Row.Edit.{replace_writes, replace_word, write_slots}
use jet3_rs.Row.Edit.Slots.{with_word, write_slots-output}
use jet3_rs.Row.Edit.Facts.{Facts}
use jet3_rs.Row.Edit.Moved.{Moved}

as_u16_value : (n w : ℕ) (e : WriteError) → ok_or (as_u16 n) e ≡ ok w → (w ≡ n) × (n < 65536)
as_u16_value n w e h = ground (arith, h)

pub get_or-append_left :
    (xs ys : List ℕ) (i : ℕ) → i < length xs → get_or (xs ++ ys) i 0 ≡ get_or xs i 0
get_or-append_left [] ys i h = absurd (omega arith)
get_or-append_left (x ∷ xs) ys zero h = refl
get_or-append_left (x ∷ xs) ys (suc i) h = get_or-append_left xs ys i (omega arith)

pub get_or-append_right :
    (xs ys : List ℕ) (i : ℕ) → get_or (xs ++ ys) (length xs + i) 0 ≡ get_or ys i 0
get_or-append_right [] ys i = let e : 0 + i ≡ i = omega arith in ap (λ n. get_or ys n 0) e
get_or-append_right (x ∷ xs) ys i =
    let e : suc (length xs) + i ≡ suc (length xs + i) = omega arith in
    ap (λ n. get_or (x ∷ (xs ++ ys)) n 0) e ∙ get_or-append_right xs ys i

pub replace_writes-Moved :
    (editor : DataPageEditor) (slot start end : ℕ) (row : List ℕ) (state : RowSlot) (gap : Packed)
    (new_free : ℕ) (budget : ResourceBudget) (s : PageImage × ResourceBudget)
    → Facts editor.source slot editor.directory.inner.row_count start end gap.lowest
    → HasU64Limits budget.limits
    → gap.directory_end + new_free + length row ≡ gap.lowest + (end - start)
    → replace_writes editor slot start end row state gap new_free
        (record { bytes = editor.source }, budget)
      ≡ done tt s
    → Moved
        (replace_word editor slot state (end - start) (length row))
        editor.source
        s.0.bytes
        (slice editor.source gap.lowest start ++ row)
        slot
        editor.directory.inner.row_count
        (gap.directory_end + new_free)
        new_free
      × (new_free < 65536)
unfolding replace_writes write_free
replace_writes-Moved editor slot start end row state gap new_free budget s f u room h =
    let size = f.size in
    let has_slot = f.has_slot in
    let below = f.below in
    let ordered = f.ordered in
    let in_page = f.in_page in
    let few = f.few in
    let word_of = replace_word editor slot state (end - start) (length row) in
    let count = editor.directory.inner.row_count in
    let dest = gap.directory_end + new_free in
    let moved = slice editor.source gap.lowest start in
    let number : Step =
      lift (ok_or (as_u16 new_free) (mismatch "replacement free-byte width")) >>= write_free in
    let slots = write_slots word_of (count - slot) slot in
    let (s1, v1, e1, h1) =
      write_then dest moved (write_step (end - length row) row >> (slots >> number))
        (record { bytes = editor.source }, budget) s (omega arith) (f.size, u) h in
    let (s2, v2, e2, h2) =
      write_then (end - length row) row (slots >> number) s1 s (omega arith) v1 h1 in
    let (s3, h3, h4) = sequence-done slots number s2 s h2 in
    let (v3, written) = write_slots-output word_of (count - slot) slot s2 s3 (omega arith) v2 h3 in
    let (w, is_w, h5) =
      with_word (ok_or (as_u16 new_free) (mismatch "replacement free-byte width")) _ s3 s h4 in
    let (same, small) = as_u16_value new_free w (mismatch "replacement free-byte width") is_w in
    let (_, e5) = one_write 2 (to_le_bytes 2 w) s3 s (omega arith) v3 h5 in
    let all : slot + (count - slot) ≡ count = omega arith in
    let len : length moved ≡ start - gap.lowest =
      length-slice editor.source gap.lowest start (omega arith) in
    let place : end - length row ≡ dest + length moved = omega (arith, len) in
    let both : s2.0.bytes ≡ copy_at editor.source dest (moved ++ row) =
      e2
      ∙ (ap (λ xs. copy_at xs (end - length row) row) e1
          ∙ (ap (λ n. copy_at (copy_at editor.source dest moved) n row) place
              ∙ copy_at-copy_at editor.source dest moved row (omega (arith, len)))) in
    (
      record {
        moved = s2.0.bytes;
        slotted = s3.0.bytes;
        is_moved = both;
        size = v3.0;
        is_slotted = rw all at written;
        is_after = e5 ∙ ap (λ n. copy_at s3.0.bytes 2 (to_le_bytes 2 n)) same;
      },
      small,
    )
