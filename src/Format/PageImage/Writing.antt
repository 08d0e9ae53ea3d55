-- ===== src/Format/PageImage/Writing.antt =====
-- One write at a place of a writer, and the three of `append_row`.
use jet3_rs.Common.{
  ℕ, ◌+◌, ◌≤◌, ◌≡◌, refl, arith, List, length, copy_at, length-copy_at, ap, ◌∙◌, ◌⊎◌, inl, inr,
}
use jet3_rs.Common.Bytes.{to_le_bytes}
use jet3_rs.Common.Results.{Outcome, done, fail, continue, ◌>>◌}
use jet3_rs.Format.Error.{Error}
use jet3_rs.Format.Writer.{BinaryWriter, seek, write_exact}
use jet3_rs.Format.PageImage.{write_field, row_writes}
use jet3_rs.Format.Writer.Writes.{IsWriter, written, write_exact_iff, write_exact_refused}

-- What a write at a place leaves: the bytes there, or an error and the output as it was.
pub data Placed (w : BinaryWriter) (offset : ℕ) (bytes : List ℕ)
    : Outcome Error BinaryWriter (Unit {0}) → Type 0 where
  placed :
      (w' : BinaryWriter)
      → IsWriter w'
      → w'.output ≡ copy_at w.output offset bytes
      → Placed w offset bytes (done tt w')
  refused :
      (e : Error) (w' : BinaryWriter) → w'.output ≡ w.output → Placed w offset bytes (fail e w')

pub Outcome-cases :
    (o : Outcome Error BinaryWriter (Unit {0}))
    → ((w : BinaryWriter) × (o ≡ done tt w)) ⊎ ((e : Error) × (w : BinaryWriter) × (o ≡ fail e w))
Outcome-cases (done tt w) = inl (w, refl)
Outcome-cases (fail e w) = inr (e, w, refl)

written-IsWriter :
    (w : BinaryWriter) (bytes : List ℕ)
    → IsWriter w
    → w.position + length bytes ≤ w.capacity
    → IsWriter (written bytes w)
written-IsWriter w bytes v room = omega (arith, length-copy_at w.output w.position bytes)

write_exact-Placed :
    (w : BinaryWriter) (bytes : List ℕ)
    → IsWriter w
    → Placed w w.position bytes (write_exact bytes w)
write_exact-Placed w bytes v = elim (Outcome-cases (write_exact bytes w)) [
  | inl (w', e) ↦
      let (room, fits, after) = (write_exact_iff bytes w w' v).0 e in
      rw e (
        placed w' (rw after (written-IsWriter w bytes v room))
          (ap (λ (u : BinaryWriter). u.output) after))
  | inr (x, w', e) ↦
      rw e (refused x w' (ap (λ (u : BinaryWriter). u.output) (write_exact_refused bytes w w' v e)))
]

seek_inside :
    (w : BinaryWriter) (offset : ℕ)
    → offset ≤ w.capacity
    → seek offset w ≡ done tt (record w { position = offset })
unfolding seek
seek_inside w offset h = ground arith

pub write_field-Placed :
    (w : BinaryWriter) (offset : ℕ) (bytes : List ℕ)
    → IsWriter w
    → offset ≤ length w.output
    → Placed w offset bytes (write_field offset bytes w)
unfolding write_field
write_field-Placed w offset bytes v h =
    rw (seek_inside w offset (omega arith))
      (moved _ (write_exact-Placed (record w { position = offset }) bytes (omega arith)))
  where
    moved :
        (o : Outcome Error BinaryWriter (Unit {0}))
        → Placed (record w { position = offset }) offset bytes o
        → Placed w offset bytes o
    moved _ (placed w' v' e) = placed w' v' e
    moved _ (refused x w' e) = refused x w' e

len_of : {xs ys : List ℕ} → xs ≡ ys → length xs ≡ length ys
len_of e = ap (λ (t : List ℕ). length t) e

-- The page after the three writes of `append_row`.
abbrev pub with_row : List ℕ → List ℕ → ℕ → List ℕ
with_row page row start = copy_at page start row

abbrev pub with_entry : List ℕ → List ℕ → ℕ → ℕ → ℕ → List ℕ
with_entry page row start entry_offset raw =
    copy_at (with_row page row start) entry_offset (to_le_bytes 2 raw)

abbrev pub with_count : List ℕ → List ℕ → ℕ → ℕ → ℕ → ℕ → List ℕ
with_count page row start entry_offset raw count =
    copy_at (with_entry page row start entry_offset raw) 8 (to_le_bytes 2 (count + 1))

-- What `row_writes` leaves: all three writes, or an error and some of the first two.
pub data Appended (page row : List ℕ) (start entry_offset raw count : ℕ)
    : Outcome Error BinaryWriter (Unit {0}) → Type 0 where
  all_written :
      (w' : BinaryWriter)
      → w'.output ≡ with_count page row start entry_offset raw count
      → Appended page row start entry_offset raw count (done tt w')
  none_written :
      (e : Error) (w' : BinaryWriter)
      → w'.output ≡ page
      → Appended page row start entry_offset raw count (fail e w')
  row_written :
      (e : Error) (w' : BinaryWriter)
      → w'.output ≡ with_row page row start
      → Appended page row start entry_offset raw count (fail e w')
  entry_written :
      (e : Error) (w' : BinaryWriter)
      → w'.output ≡ with_entry page row start entry_offset raw
      → Appended page row start entry_offset raw count (fail e w')

module _ (page row : List ℕ) (start entry_offset raw count : ℕ) (above : 8 ≤ length page)
    (entry_inside : entry_offset ≤ length page) where
  third :
      (w : BinaryWriter)
      → w.output ≡ with_entry page row start entry_offset raw
      → (o : Outcome Error BinaryWriter (Unit {0})) → Placed w 8 (to_le_bytes 2 (count + 1)) o
      → Appended page row start entry_offset raw count o
  third w out _ (placed w' v' e) =
      all_written w' (e ∙ ap (λ t. copy_at t 8 (to_le_bytes 2 (count + 1))) out)
  third w out _ (refused x w' e) = entry_written x w' (e ∙ out)

  second :
      (w : BinaryWriter)
      → w.output ≡ with_row page row start
      → (o : Outcome Error BinaryWriter (Unit {0})) → Placed w entry_offset (to_le_bytes 2 raw) o
      → Appended page row start entry_offset raw count
          (continue o (λ _. write_field 8 (to_le_bytes 2 (count + 1))))
  second w out _ (placed w' v' e) =
      let now = e ∙ ap (λ t. copy_at t entry_offset (to_le_bytes 2 raw)) out in
      third w' now _ (
        write_field-Placed w' 8 _ v' (
          omega (
            arith,
            len_of now,
            length-copy_at (with_row page row start) entry_offset (to_le_bytes 2 raw),
            length-copy_at page start row,
          )))
  second w out _ (refused x w' e) = row_written x w' (e ∙ out)

  first :
      (w : BinaryWriter)
      → w.output ≡ page
      → (o : Outcome Error BinaryWriter (Unit {0})) → Placed w start row o
      → Appended page row start entry_offset raw count (
          continue o (λ _.
            write_field entry_offset (to_le_bytes 2 raw)
            >> write_field 8 (to_le_bytes 2 (count + 1))))
  first w out _ (placed w' v' e) =
      let now = e ∙ ap (λ t. copy_at t start row) out in
      second w' now _ (
        write_field-Placed w' entry_offset _ v'
          (omega (arith, len_of now, length-copy_at page start row)))
  first w out _ (refused x w' e) = none_written x w' (e ∙ out)

  pub row_writes-Appended :
      (w : BinaryWriter)
      → IsWriter w
      → w.output ≡ page
      → start ≤ length page
      → Appended page row start entry_offset raw count
          (row_writes row start entry_offset raw count w)
  unfolding row_writes
  row_writes-Appended w v out h = first w out _ (write_field-Placed w start row v (rw out h))
