-- ===== src/Row/Edit/Parts.antt =====
-- What `remove` did when it gives a page that keeps rows.
use jet3_rs.Common.{ℕ, ◌+◌, ◌-◌, ◌*◌, ◌^◌, ◌<◌, ◌≡◌, refl, arith, Bool}
use jet3_rs.Common.{inl, inr}
use jet3_rs.Common.Ranges.{same_or_apart}
use jet3_rs.Common.Results.{Result, ok, err, Outcome, done, fail}
use jet3_rs.Format.Error.{Error}
use jet3_rs.Format.Resource.{ResourceBudget, charge_work_units}
use jet3_rs.Format.PageImage.{PageImage}
use jet3_rs.Row.Directory.{RowEntry}
use jet3_rs.Row.WriteError.{WriteError}
use jet3_rs.Row.DataPage.{DataPageEditor, Packed, entry, live_rows, packed}
use jet3_rs.Row.Insert.{on_copy}
use jet3_rs.Row.Edit.{
  Deletion, released, retained, remove, remove_into, remove_writes, release_writes,
}

module _ (editor : DataPageEditor) (slot : ℕ) (image : PageImage) where
  -- A page whose only live row goes is released.
  not_released :
      (start end : ℕ) (gap : Packed) (b b' : ResourceBudget)
      → ¬ (remove_into editor slot start end 1 gap b ≡ done (retained image) b')
  unfolding remove_into
  not_released start end gap b b' =
      by_copy
        (on_copy editor.source
          (release_writes editor.directory.inner.row_count (gap.free + (end - start))) b)
        refl
    where
      by_copy :
          (o : Outcome WriteError ResourceBudget PageImage)
          → on_copy editor.source
              (release_writes editor.directory.inner.row_count (gap.free + (end - start)))
              b
            ≡ o
          → ¬ (remove_into editor slot start end 1 gap b ≡ done (retained image) b')
      by_copy (done out end_b) e h = ground (arith, h, e)
      by_copy (fail x end_b) e h = ground (arith, h, e)

  pub remove_into_parts :
      (start end live : ℕ) (gap : Packed) (b b' : ResourceBudget)
      → remove_into editor slot start end live gap b ≡ done (retained image) b'
      → (gap.free + (end - start) < 2 ^ 16)
        × (paid : ResourceBudget) × (charge_work_units (start - gap.lowest) b ≡ done tt paid)
        × (on_copy editor.source
              (remove_writes editor slot start end gap.lowest (gap.free + (end - start)))
              paid
            ≡ done image b')
  unfolding remove_into
  remove_into_parts start end live gap b b' h =
      by_charge (charge_work_units (start - gap.lowest) b) refl
    where
      kept : ¬ (live ≡ 1)
      kept e = not_released start end gap b b' (rw e at h)

      copy_of : ResourceBudget → Outcome WriteError ResourceBudget PageImage
      copy_of paid =
          on_copy editor.source
            (remove_writes editor slot start end gap.lowest (gap.free + (end - start))) paid

      by_copy :
          (paid : ResourceBudget) (o : Outcome WriteError ResourceBudget PageImage)
          → charge_work_units (start - gap.lowest) b ≡ done tt paid
          → copy_of paid ≡ o
          → (gap.free + (end - start) < 2 ^ 16) × (copy_of paid ≡ done image b')
      by_copy paid (done out end_b) e1 e2 = let n = kept in ground (arith, h, e1, e2)
      by_copy paid (fail x end_b) e1 e2 = let n = kept in absurd (ground (arith, h, e1, e2))

      by_charge :
          (o : Outcome Error ResourceBudget (Unit {0}))
          → charge_work_units (start - gap.lowest) b ≡ o
          → (gap.free + (end - start) < 2 ^ 16)
            × (paid : ResourceBudget) × (charge_work_units (start - gap.lowest) b ≡ done tt paid)
            × (copy_of paid ≡ done image b')
      by_charge (done t paid) e =
          let (small, copy) = by_copy paid (copy_of paid) e refl in (small, paid, e, copy)
      by_charge (fail x paid) e = let n = kept in absurd (ground (arith, h, e))

  -- A page with other live rows is kept.
  not_retained :
      (start end live : ℕ) (gap : Packed) (b b' : ResourceBudget)
      → ¬ (live ≡ 1)
      → ¬ (remove_into editor slot start end live gap b ≡ done (released image) b')
  unfolding remove_into
  not_retained start end live gap b b' others h =
      by_charge (charge_work_units (start - gap.lowest) b) refl
    where
      by_copy :
          (paid : ResourceBudget) (o : Outcome WriteError ResourceBudget PageImage)
          → charge_work_units (start - gap.lowest) b ≡ done tt paid
          → on_copy editor.source
              (remove_writes editor slot start end gap.lowest (gap.free + (end - start)))
              paid
            ≡ o
          → ⊥
      by_copy paid (done out end_b) e1 e2 = ground (arith, h, e1, e2)
      by_copy paid (fail x end_b) e1 e2 = ground (arith, h, e1, e2)

      by_charge :
          (o : Outcome Error ResourceBudget (Unit {0}))
          → charge_work_units (start - gap.lowest) b ≡ o
          → ⊥
      by_charge (done t paid) e =
          by_copy paid
            (on_copy editor.source
              (remove_writes editor slot start end gap.lowest (gap.free + (end - start))) paid)
            e refl
      by_charge (fail x paid) e = ground (arith, h, e)

  -- A page that is released had one live row.
  pub remove_into_released :
      (start end live : ℕ) (gap : Packed) (b b' : ResourceBudget)
      → remove_into editor slot start end live gap b ≡ done (released image) b'
      → (live ≡ 1)
        × (gap.free + (end - start) < 2 ^ 16)
        × (on_copy editor.source
              (release_writes editor.directory.inner.row_count (gap.free + (end - start)))
              b
            ≡ done image b')
  unfolding remove_into
  remove_into_released start end live gap b b' h =
      by_copy
        (on_copy editor.source
          (release_writes editor.directory.inner.row_count (gap.free + (end - start))) b)
        refl
    where
      last : live ≡ 1
      last = elim (same_or_apart live 1) [
        | inl e ↦ e
        | inr others ↦ absurd (not_retained start end live gap b b' others h)
      ]

      by_copy :
          (o : Outcome WriteError ResourceBudget PageImage)
          → on_copy editor.source
              (release_writes editor.directory.inner.row_count (gap.free + (end - start)))
              b
            ≡ o
          → (live ≡ 1)
            × (gap.free + (end - start) < 2 ^ 16)
            × (on_copy editor.source
                  (release_writes editor.directory.inner.row_count (gap.free + (end - start)))
                  b
                ≡ done image b')
      by_copy (done out end_b) e =
          let one = last in (one, ground (arith, h, e, one), ground (arith, h, e, one))
      by_copy (fail x end_b) e = let one = last in absurd (ground (arith, h, e, one))

module _ (editor : DataPageEditor) (slot : ℕ) (d : Deletion) where
  pub remove_parts :
      (physical : Bool) (b b' : ResourceBudget)
      → remove editor slot physical b ≡ done d b'
      → (e : RowEntry) × (live : ℕ) × (gap : Packed) × (paid : ResourceBudget) × (entry editor slot
          ≡ ok e)
        × (live_rows editor physical "page contains an unsupported row slot" ≡ ok live)
        × (packed editor "data page free-byte count" ≡ ok gap)
        × (charge_work_units (2 * editor.directory.inner.row_count) b ≡ done tt paid)
        × (e.start < e.end)
        × (remove_into editor slot e.start e.end live gap paid ≡ done d b')
  unfolding remove
  remove_parts physical b b' h =
      by_outcomes (entry editor slot) (charge_work_units (2 * editor.directory.inner.row_count) b)
        (live_rows editor physical "page contains an unsupported row slot")
        (packed editor "data page free-byte count") refl refl refl refl
    where
      by_outcomes :
          (r : Result WriteError RowEntry) (o : Outcome Error ResourceBudget (Unit {0}))
          (l : Result WriteError ℕ) (p : Result WriteError Packed)
          → entry editor slot ≡ r
          → charge_work_units (2 * editor.directory.inner.row_count) b ≡ o
          → live_rows editor physical "page contains an unsupported row slot" ≡ l
          → packed editor "data page free-byte count" ≡ p
          → (e : RowEntry) × (live : ℕ) × (gap : Packed) × (paid : ResourceBudget) × (entry editor
                slot
              ≡ ok e)
            × (live_rows editor physical "page contains an unsupported row slot" ≡ ok live)
            × (packed editor "data page free-byte count" ≡ ok gap)
            × (charge_work_units (2 * editor.directory.inner.row_count) b ≡ done tt paid)
            × (e.start < e.end)
            × (remove_into editor slot e.start e.end live gap paid ≡ done d b')
      by_outcomes (ok e) (done t paid) (ok live) (ok gap) e1 e2 e3 e4 = (
        e,
        live,
        gap,
        paid,
        e1,
        e3,
        e4,
        e2,
        ground (arith, h, e1, e2, e3, e4),
        ground (arith, h, e1, e2, e3, e4),
      )
      by_outcomes (err x) o l p e1 e2 e3 e4 = absurd (ground (arith, h, e1))
      by_outcomes (ok e) (fail x paid) l p e1 e2 e3 e4 = absurd (ground (arith, h, e1, e2))
      by_outcomes (ok e) (done t paid) (err x) p e1 e2 e3 e4 =
          absurd (ground (arith, h, e1, e2, e3))
      by_outcomes (ok e) (done t paid) (ok live) (err x) e1 e2 e3 e4 =
          absurd (ground (arith, h, e1, e2, e3, e4))
