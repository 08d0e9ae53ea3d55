-- ===== src/Row/Directory/Validation.antt =====
-- `RowDirectory::validate` accepts exactly the well-formed pages of the owner.
use jet3_rs.Common.{ℕ, suc, ◌≤◌, ◌<◌, ◌≡◌, arith, List, ◌↔◌, slice, ap}
use jet3_rs.Common.Bytes.{from_le_bytes}
use jet3_rs.Common.Results.{done, ok}
use jet3_rs.Format.Geometry.{PageNumber}
use jet3_rs.Format.Resource.{ResourceBudget}
use jet3_rs.Format.DataPageDirectory.{DataPageDirectory, DataPageDirectoryError, declared_row_count}
use jet3_rs.Format.DataPageDirectory as Common_directory
use jet3_rs.Format.DataPageDirectory.Validation.{validate_iff}
use jet3_rs.Row.Directory.{RowDirectory, validate_owner, check_pointers, validate}
use jet3_rs.Row.Directory.Pointers.{IsPointer, check_pointers_sound, check_pointers_complete}

validate_parts :
    (number owner : PageNumber) (page : List ℕ) (b b' : ResourceBudget) (d : RowDirectory)
    → (validate number owner page b ≡ done d b') ↔ (
        (from_le_bytes (slice page 4 8) ≡ owner)
        × (declared_row_count page ≤ 256)
        × (Common_directory.validate page b ≡ done d.inner b')
        × (check_pointers (suc d.inner.row_count) page (declared_row_count page) d.inner ≡ ok tt)
        × (d.page ≡ number))
unfolding validate validate_owner
validate_parts number owner page b b' d = (λ p. ground arith, λ p. ground arith)

-- A page is accepted exactly when its owner field is the owner, it declares at most 256 rows, its
-- data-page directory is accepted, and every row that is visible and overflows has four bytes; the
-- directory that is returned is the page's.
pub row_directory_iff :
    (number owner : PageNumber) (page : List ℕ) (b b' : ResourceBudget) (d : RowDirectory)
    → (validate number owner page b ≡ done d b') ↔ (
        (from_le_bytes (slice page 4 8) ≡ owner)
        × (declared_row_count page ≤ 256)
        × (Common_directory.validate page b ≡ done d.inner b')
        × ((row : ℕ) → row < declared_row_count page → IsPointer page row)
        × (d.page ≡ number))
row_directory_iff number owner page b b' d = (
  λ h.
      let (owned, few, common, checked, same) = (validate_parts number owner page b b' d).0 h in
      let (_, _, _, shape) = (validate_iff page b b' d.inner).0 common in
      let count : d.inner.row_count ≡ declared_row_count page =
        ap (λ (x : DataPageDirectory). x.row_count) shape in
      let first : d.inner.next_row ≡ 0 = ap (λ (x : DataPageDirectory). x.next_row) shape in
      (
        owned,
        few,
        common,
        λ row lt.
            check_pointers_sound (suc d.inner.row_count) page (declared_row_count page) d.inner row
              (omega (arith, first)) checked (omega (arith, first)) (omega (arith, count, lt)),
        same,
      ),
  λ (owned, few, common, pointers, same).
      let (_, _, _, shape) = (validate_iff page b b' d.inner).0 common in
      let count : d.inner.row_count ≡ declared_row_count page =
        ap (λ (x : DataPageDirectory). x.row_count) shape in
      let checked =
        check_pointers_complete (suc d.inner.row_count) page (declared_row_count page) d.inner
          (λ k lt. pointers k (omega (arith, count, lt))) in
      (validate_parts number owner page b b' d).1 (owned, few, common, checked, same),
)
