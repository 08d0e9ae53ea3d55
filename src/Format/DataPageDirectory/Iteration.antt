-- ===== src/Format/DataPageDirectory/Iteration.antt =====
-- The iteration of `next_entry`.
use jet3_rs.Common.{
  ℕ, zero, suc, ◌+◌, ◌-◌, ◌<◌, ◌≡◌, arith, List, [], ◌∷◌, none, some, length, get_or, bit_and, not,
  ◌==◌, ap, sym, ◌∙◌,
}
use jet3_rs.Format.DataPageDirectory.{
  DataPageDirectory, DataPageEntry, raw_offset, offset_mask, entry_end, entry, next_entry,
}

-- `while let Some(entry) = directory.next_entry(page)`, at most `fuel` times.
unfoldable pub collect : ℕ → List ℕ → DataPageDirectory → List DataPageEntry
collect zero page d = []
collect (suc fuel) page d =
    let (next, d') = next_entry page d in
    elim next [ none ↦ [] | some e ↦ e ∷ collect fuel page d' ]

collect_from :
    (fuel : ℕ) (page : List ℕ) (d : DataPageDirectory)
    → d.next_row + fuel ≡ suc d.row_count
    → length (collect fuel page d) ≡ d.row_count - d.next_row
unfolding collect next_entry entry
collect_from zero page d h = omega arith
collect_from (suc fuel) page d h =
    ground (arith, collect_from fuel page (record d { next_row = suc d.next_row }))

-- The entry that stands at a row.
abbrev pub entry_at : List ℕ → ℕ → DataPageEntry
entry_at page row = record {
  row = row;
  start = bit_and (raw_offset page row) offset_mask;
  end = entry_end page row;
  overflow = not (bit_and (raw_offset page row) 0x4000 == 0);
  hidden = not (bit_and (raw_offset page row) 0x8000 == 0);
}

pub entry-entry_at :
    (d : DataPageDirectory) (page : List ℕ) (row : ℕ)
    → row < d.row_count
    → entry d page row ≡ some (entry_at page row)
unfolding entry
entry-entry_at d page row h = ground arith

collect_step :
    (fuel : ℕ) (page : List ℕ) (d : DataPageDirectory)
    → d.next_row < d.row_count
    → collect (suc fuel) page d
      ≡ entry_at page d.next_row ∷ collect fuel page (record d { next_row = suc d.next_row })
unfolding collect next_entry entry
collect_step fuel page d h = ground arith

collect_at :
    (fuel : ℕ) (page : List ℕ) (d : DataPageDirectory) (k : ℕ) (e : DataPageEntry)
    → k < fuel
    → d.next_row + k < d.row_count
    → get_or (collect fuel page d) k e ≡ entry_at page (d.next_row + k)
collect_at zero page d k e h lt = absurd (omega arith)
collect_at (suc fuel) page d zero e h lt =
    let same : d.next_row + 0 ≡ d.next_row = omega arith in
    rw (collect_step fuel page d (omega arith)) (rw same)
collect_at (suc fuel) page d (suc k) e h lt =
    let same : d.next_row + suc k ≡ suc d.next_row + k = omega arith in
    rw (collect_step fuel page d (omega arith)) (
      rw same (
        collect_at fuel page (record d { next_row = suc d.next_row }) k e (omega arith)
          (omega arith)))

-- From the first row on, the iteration yields the entry of every row of the directory, in order,
-- and ends after them.
pub collect_all :
    (page : List ℕ) (d : DataPageDirectory) (k : ℕ) (e : DataPageEntry)
    → d.next_row ≡ 0
    → k < d.row_count
    → (length (collect (suc d.row_count) page d) ≡ d.row_count)
      × (entry d page k ≡ some (get_or (collect (suc d.row_count) page d) k e))
collect_all page d k e h lt =
    let same : d.next_row + k ≡ k = omega arith in
    (
      omega (arith, collect_from (suc d.row_count) page d (omega arith)),
      entry-entry_at d page k lt
          ∙ ap some (
              sym
                (rw same at (collect_at (suc d.row_count) page d k e (omega arith) (omega arith)))),
    )
