-- ===== src/Row/Directory/Primary.antt =====
-- `next_primary` finds the next visible row.
use jet3_rs.Common.{
  ℕ, zero, suc, ◌+◌, ◌≤◌, ◌<◌, ◌≡◌, refl, arith, List, Option, none, some, true, false, inl, inr,
  ◌∙◌,
}
use native.Mathlib.Decide.{dec_lt}
use jet3_rs.Common.Results.{done}
use jet3_rs.Common.{Bool-cases}
use jet3_rs.Format.DataPageDirectory.{DataPageEntry, next_entry}
use jet3_rs.Format.DataPageDirectory as Common_directory
use jet3_rs.Format.DataPageDirectory.Iteration.{entry_at}
use jet3_rs.Row.Directory.{RowDirectory, RowEntry, next_primary}

-- The directory that goes on at a row.
abbrev pub standing_at : RowDirectory → ℕ → RowDirectory
standing_at d row = record d { inner = record (d.inner) { next_row = row } }

-- The entry of a row, as a reader gets it.
abbrev pub row_entry_at : RowDirectory → List ℕ → ℕ → RowEntry
row_entry_at d page row =
    let e = entry_at page row in
    record {
      locator = record { page = d.page; slot = row };
      start = e.start;
      end = e.end;
      overflow = e.overflow;
      hidden = e.hidden;
    }

-- What the search may give from a row on: the first visible row, or nothing when all are hidden.
-- The directory then stands behind that row, or at the end.
pub data FirstVisible (d : RowDirectory) (page : List ℕ)
    : ℕ → Option RowEntry → RowDirectory → Type 0 where
  at_end : {row : ℕ} → row ≡ d.inner.row_count → FirstVisible d page row none (standing_at d row)
  visible :
      {row : ℕ}
      → row < d.inner.row_count
      → (entry_at page row).hidden ≡ false
      → FirstVisible d page row (some (row_entry_at d page row)) (standing_at d (suc row))
  skipped :
      {row : ℕ} {found : Option RowEntry} {after : RowDirectory}
      → row < d.inner.row_count
      → (entry_at page row).hidden ≡ true
      → FirstVisible d page (suc row) found after
      → FirstVisible d page row found after

next_primary_end :
    (fuel : ℕ) (page : List ℕ) (d : RowDirectory) (row : ℕ)
    → row ≡ d.inner.row_count
    → next_primary fuel page (standing_at d row) ≡ done none (standing_at d row)
unfolding next_primary next_entry
next_primary_end zero page d row h = refl
next_primary_end (suc fuel) page d row h = ground arith

next_primary_visible :
    (fuel : ℕ) (page : List ℕ) (d : RowDirectory) (row : ℕ)
    → row < d.inner.row_count
    → row < 256
    → (entry_at page row).hidden ≡ false
    → next_primary (suc fuel) page (standing_at d row)
      ≡ done (some (row_entry_at d page row)) (standing_at d (suc row))
unfolding next_primary next_entry Common_directory.entry
next_primary_visible fuel page d row h lt v = ground arith

next_primary_hidden :
    (fuel : ℕ) (page : List ℕ) (d : RowDirectory) (row : ℕ)
    → row < d.inner.row_count
    → row < 256
    → (entry_at page row).hidden ≡ true
    → next_primary (suc fuel) page (standing_at d row)
      ≡ next_primary fuel page (standing_at d (suc row))
unfolding next_primary next_entry Common_directory.entry
next_primary_hidden fuel page d row h lt v = ground arith

-- With one time round for each row that is left and one more, `next_primary` never fails on a
-- directory of at most 256 rows: it finds the first visible row from where the directory stands and
-- goes on behind it, or ends when all the rows that are left are hidden.
pub next_primary_lem :
    (fuel : ℕ) (page : List ℕ) (d : RowDirectory) (row : ℕ)
    → d.inner.row_count ≤ 256
    → row ≤ d.inner.row_count
    → d.inner.row_count < row + fuel
    → (found : Option RowEntry) × (after : RowDirectory) × (next_primary fuel page
          (standing_at d row)
        ≡ done found after)
      × FirstVisible d page row found after
next_primary_lem zero page d row few inside enough = absurd (omega arith)
next_primary_lem (suc fuel) page d row few inside enough = elim (dec_lt row d.inner.row_count) [
  | no p ↦
      let e : row ≡ d.inner.row_count = omega arith in
      (none, standing_at d row, next_primary_end (suc fuel) page d row e, at_end e)
  | yes p ↦ elim (Bool-cases (entry_at page row).hidden) [
    | inl v ↦
        let (found, after, runs, first) =
          next_primary_lem fuel page d (suc row) few p (omega arith) in
        (
          found,
          after,
          next_primary_hidden fuel page d row p (omega arith) v ∙ runs,
          skipped p v first,
        )
    | inr v ↦ (
      some (row_entry_at d page row),
      standing_at d (suc row),
      next_primary_visible fuel page d row p (omega arith) v,
      visible p v,
    )
  ]
]
