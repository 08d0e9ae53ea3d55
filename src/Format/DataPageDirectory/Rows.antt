-- ===== src/Format/DataPageDirectory/Rows.antt =====
-- What the entries of an accepted directory say of the rows' bytes.
use jet3_rs.Common.{ℕ, zero, suc, ◌+◌, ◌-◌, ◌≤◌, ◌<◌, ◌≡◌, refl, arith, List, some, ap}
use native.Mathlib.Decide.{dec_lt}
use mathlib.Core.Path.{subst}
use jet3_rs.Common.Results.{done}
use jet3_rs.Format.Resource.{ResourceBudget}
use jet3_rs.Format.DataPageDirectory.{
  DataPageDirectory, DataPageEntry, page_bytes, declared_row_count, raw_offset, directory_end_of,
  validate, entry, entry_end,
}
use jet3_rs.Format.DataPageDirectory.Shape.{start_of, end_of, IsEntry, masked_start}
use jet3_rs.Format.DataPageDirectory.Validation.{validate_iff}

pub entry_end-end_of : (page : List ℕ) (row : ℕ) → entry_end page row ≡ end_of page row
entry_end-end_of page zero = refl
entry_end-end_of page (suc before) = masked_start (raw_offset page before)

-- The entry's fields, read off its word.
pub entry_fields :
    (d : DataPageDirectory) (page : List ℕ) (row : ℕ) (e : DataPageEntry)
    → entry d page row ≡ some e
    → (row < d.row_count)
      × (e.row ≡ row)
      × (e.start ≡ start_of (raw_offset page row))
      × (e.end ≡ end_of page row)
unfolding entry
entry_fields d page row e h =
    ground (arith, masked_start (raw_offset page row), entry_end-end_of page row)

-- Later rows lie below earlier ones.
end_of-le_start :
    (page : List ℕ) (count i k : ℕ)
    → ((row : ℕ) → row < count → IsEntry page count row)
    → suc i + k < count
    → end_of page (suc (i + k)) ≤ start_of (raw_offset page i)
end_of-le_start page count i zero all h = let e : i + 0 ≡ i = omega arith in rw e (omega arith)
end_of-le_start page count i (suc k) all h =
    let e : i + suc k ≡ suc (i + k) = omega arith in
    let here = all (suc (i + k)) (omega arith) in
    rw e (omega (arith, here.ordered, end_of-le_start page count i k all (omega arith)))

pub start-le_start :
    (page : List ℕ) (count i j : ℕ)
    → ((row : ℕ) → row < count → IsEntry page count row)
    → i ≤ j
    → j < count
    → start_of (raw_offset page j) ≤ start_of (raw_offset page i)
start-le_start page count i j all lo hi = elim (dec_lt i j) [
  | yes p ↦
      let e : suc (i + (j - suc i)) ≡ j = omega arith in
      let below = end_of-le_start page count i (j - suc i) all (omega arith) in
      let here = all j hi in
      omega (
        arith,
        here.ordered,
        subst (λ (x : ℕ). end_of page x ≤ start_of (raw_offset page i)) e below,
      )
  | no p ↦ let e : i ≡ j = omega arith in rw e (omega arith)
]

pub end_of-le_page :
    (page : List ℕ) (count i : ℕ)
    → ((row : ℕ) → row < count → IsEntry page count row)
    → i < count
    → end_of page i ≤ page_bytes
end_of-le_page page count zero all h = omega arith
end_of-le_page page count (suc i) all h =
    let here = all i (omega arith) in
    omega (arith, here.ordered, end_of-le_page page count i all (omega arith))

-- In a directory that `validate` accepted, the ranges of two rows lie between the directory and the
-- end of the page, and the range of the later row ends at or before the start of the earlier one's:
-- no two rows overlap.
pub entry-disjoint :
    (page : List ℕ) (b b' : ResourceBudget) (d : DataPageDirectory) (i j : ℕ) (x y : DataPageEntry)
    → validate page b ≡ done d b'
    → entry d page i ≡ some x
    → entry d page j ≡ some y
    → i < j
    → (y.end ≤ x.start)
      × (x.start ≤ x.end)
      × (x.end ≤ page_bytes)
      × (directory_end_of d.row_count ≤ y.start)
      × (y.start ≤ y.end)
entry-disjoint page b b' d i j x y h hx hy lt =
    let (_, _, all, same) = (validate_iff page b b' d).0 h in
    let (i_in, _, x_start, x_end) = entry_fields d page i x hx in
    let (j_in, _, y_start, y_end) = entry_fields d page j y hy in
    let count : d.row_count ≡ declared_row_count page =
      ap (λ (e : DataPageDirectory). e.row_count) same in
    let at_i = all i (omega arith) in
    let at_j = all j (omega arith) in
    let next : suc (i + (j - suc i)) ≡ j = omega arith in
    let below : end_of page j ≤ start_of (raw_offset page i) =
      subst (λ k. end_of page k ≤ start_of (raw_offset page i)) next
        (end_of-le_start page (declared_row_count page) i (j - suc i) all (omega arith)) in
    omega
      (arith, at_i, at_j, below, end_of-le_page page (declared_row_count page) i all (omega arith))
