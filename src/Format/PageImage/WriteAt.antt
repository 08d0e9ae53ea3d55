-- ===== src/Format/PageImage/WriteAt.antt =====
-- One write at a place of a page image.
use jet3_rs.Common.{ℕ, ◌≤◌, ◌≡◌, refl, arith, List, length, sym, ap, ◌∙◌, inl, inr, copy_at}
use mathlib.Core.Path.{subst}
use jet3_rs.Common.Results.{Outcome, done, fail}
use jet3_rs.Format.Error.{Error}
use jet3_rs.Format.Resource.{ResourceBudget}
use jet3_rs.Format.Resource.Accounting.{HasU64Limits}
use jet3_rs.Format.Writer.{BinaryWriter, new_writer}
use jet3_rs.Format.Writer.Writes.{IsWriter}
use jet3_rs.Format.PageImage.{PageImage, write_at, write_field}
use jet3_rs.Format.PageImage.Writing.{Placed, placed, Outcome-cases, write_field-Placed}

Placed-output :
    {w w' : BinaryWriter} {offset : ℕ} {bytes : List ℕ}
    → Placed w offset bytes (done tt w')
    → w'.output ≡ copy_at w.output offset bytes
Placed-output (placed w' v e) = e

Placed-limits :
    {w w' : BinaryWriter} {offset : ℕ} {bytes : List ℕ}
    → Placed w offset bytes (done tt w')
    → HasU64Limits w'.budget.limits
Placed-limits (placed w' v e) = v.limits_u64

-- The image and the budget after a write.
abbrev page_after :
    Outcome Error BinaryWriter (Unit {0}) → Outcome Error (PageImage × ResourceBudget) (Unit {0})
page_after o = elim o [
  | done a w ↦ done a (record { bytes = w.output }, w.budget)
  | fail x w ↦ fail x (record { bytes = w.output }, w.budget)
]

write_at_done :
    (offset : ℕ) (bytes : List ℕ) (image : PageImage) (budget : ResourceBudget) (w : BinaryWriter)
    → write_field offset bytes (new_writer image.bytes budget) ≡ done tt w
    → write_at offset bytes (image, budget) ≡ done tt (record { bytes = w.output }, w.budget)
unfolding write_at
write_at_done offset bytes image budget w e = ap page_after e

write_at_fail :
    (offset : ℕ) (bytes : List ℕ) (image : PageImage) (budget : ResourceBudget) (x : Error)
    (w : BinaryWriter)
    → write_field offset bytes (new_writer image.bytes budget) ≡ fail x w
    → write_at offset bytes (image, budget) ≡ fail x (record { bytes = w.output }, w.budget)
unfolding write_at
write_at_fail offset bytes image budget x w e = ap page_after e

module _ (offset : ℕ) (bytes : List ℕ) (image image' : PageImage) (budget budget' : ResourceBudget)
    (len : length image.bytes ≡ 2048) (inside : offset ≤ 2048) (u : HasU64Limits budget.limits)
    (h : write_at offset bytes (image, budget) ≡ done tt (image', budget')) where
  abbrev fresh : BinaryWriter
  fresh = new_writer image.bytes budget

  fresh-IsWriter : IsWriter fresh
  fresh-IsWriter = record {
    same_capacity = refl;
    inside = omega arith;
    capacity_u64 = omega arith;
    limits_u64 = u;
  }

  wrote :
      (w : BinaryWriter) × (write_field offset bytes fresh ≡ done tt w)
      × (w.output ≡ image'.bytes)
      × (w.budget ≡ budget')
  wrote = elim (Outcome-cases (write_field offset bytes fresh)) [
    | inl (w, e) ↦
        let runs = write_at_done offset bytes image budget w e in (w, e, cc (runs, h), cc (runs, h))
    | inr (x, w, e) ↦ cc (write_at_fail offset bytes image budget x w e)
  ]

  left :
      (w : BinaryWriter)
      → write_field offset bytes fresh ≡ done tt w
      → Placed fresh offset bytes (done tt w)
  left w e = rw e at (write_field-Placed fresh offset bytes fresh-IsWriter (omega arith))

  -- What a write that succeeds leaves of an image.
  pub write_at-output : image'.bytes ≡ copy_at image.bytes offset bytes
  write_at-output = let (w, e, out, _) = wrote in sym out ∙ Placed-output (left w e)

  -- The limits stay `u64` values.
  pub write_at-limits : HasU64Limits budget'.limits
  write_at-limits =
      let (w, e, _, paid) = wrote in
      subst (λ (b : ResourceBudget). HasU64Limits b.limits) paid (Placed-limits (left w e))
