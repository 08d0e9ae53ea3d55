-- ===== src/Format/DataPageDirectory/Validation.antt =====
-- `validate` accepts exactly the well-formed directories, and what that says of the entries.
use jet3_rs.Common.{ℕ, zero, suc, ◌≤◌, ◌<◌, ◌≡◌, refl, arith, List, ◌↔◌, true, ap}
use jet3_rs.Common.Ranges.{AllFrom, AllFrom-at, AllFrom-all}
use jet3_rs.Common.Results.{Result, ok, done, is_ok, is_ok-value, and_then-eq_ok}
use jet3_rs.Format.Resource.{ResourceBudget, charge_items}
use jet3_rs.Format.DataPageDirectory.{
  DataPageDirectory, DataPageDirectoryError, page_bytes, max_row_count, declared_row_count,
  raw_offset, directory_end_of, validate_entry, validate_rows, validate,
}
use jet3_rs.Format.DataPageDirectory.Shape.{
  start_of, end_of, IsWord, IsEntry, masked_start, unknown_flag_bit, hidden_flag_bit,
}

-- The check of one entry, given where the row has to end.
validate_entry_iff :
    (row raw row_end directory_end start : ℕ)
    → row_end ≤ page_bytes
    → (validate_entry row raw row_end directory_end ≡ ok start)
      ↔ (IsWord raw row_end directory_end × (start ≡ start_of raw))
unfolding validate_entry
validate_entry_iff row raw row_end directory_end start h = (
  λ p. ground (arith, masked_start raw, unknown_flag_bit raw, hidden_flag_bit raw),
  λ p. ground (arith, masked_start raw, unknown_flag_bit raw, hidden_flag_bit raw),
)

-- `left` entries from `row` on.
abbrev AllEntries : List ℕ → ℕ → ℕ → ℕ → Type 0
AllEntries page row_count = AllFrom (IsEntry page row_count)

start-le_page :
    (page : List ℕ) (row_count row : ℕ)
    → end_of page row ≤ page_bytes
    → IsEntry page row_count row
    → end_of page (suc row) ≤ page_bytes
start-le_page page row_count row h e = omega arith

validate_rows_sound :
    (page : List ℕ) (row_count left row e : ℕ)
    → end_of page row ≤ page_bytes
    → validate_rows page left row (end_of page row) (directory_end_of row_count) ≡ ok e
    → AllEntries page row_count left row
unfolding validate_rows
validate_rows_sound page row_count zero row e h p = tt
validate_rows_sound page row_count (suc left) row e h p =
    let (start, checked, rest) =
      and_then-eq_ok (validate_entry row (raw_offset page row) _ _) _ p in
    let (here, e_start) = (validate_entry_iff row (raw_offset page row) _ _ start h).0 checked in
    (here, validate_rows_sound page row_count left (suc row) e (omega arith) (rw e_start at rest))

validate_rows_complete :
    (page : List ℕ) (row_count left row : ℕ)
    → end_of page row ≤ page_bytes
    → AllEntries page row_count left row
    → (e : ℕ) × (validate_rows page left row (end_of page row) (directory_end_of row_count) ≡ ok e)
unfolding validate_rows
validate_rows_complete page row_count zero row h p = (_, refl)
validate_rows_complete page row_count (suc left) row h p =
    rw
      ((validate_entry_iff row (raw_offset page row) _ _ (start_of (raw_offset page row)) h).1
        (p.0, refl))
      (validate_rows_complete page row_count left (suc row) (omega arith) p.1)

abbrev rows_of : List ℕ → Result DataPageDirectoryError ℕ
rows_of page =
    let count = declared_row_count page in
    validate_rows page count 0 page_bytes (directory_end_of count)

validate_parts :
    (page : List ℕ) (b b' : ResourceBudget) (d : DataPageDirectory)
    → (validate page b ≡ done d b') ↔ (
        (declared_row_count page ≤ max_row_count)
        × (charge_items (declared_row_count page) b ≡ done tt b')
        × (is_ok (rows_of page) ≡ true)
        × (d ≡ record { row_count = declared_row_count page; next_row = 0 }))
unfolding validate
validate_parts page b b' d = (λ h. ground arith, λ h. ground arith)

-- `validate` accepts a page exactly when its row count fits a page, the budget allows that many
-- items, and each entry is well formed; it then charges the items and nothing else, and starts at
-- the first row.
pub validate_iff :
    (page : List ℕ) (b b' : ResourceBudget) (d : DataPageDirectory)
    → (validate page b ≡ done d b') ↔ (
        (declared_row_count page ≤ max_row_count)
        × (charge_items (declared_row_count page) b ≡ done tt b')
        × ((row : ℕ) → row < declared_row_count page → IsEntry page (declared_row_count page) row)
        × (d ≡ record { row_count = declared_row_count page; next_row = 0 }))
validate_iff page b b' d = (
  λ h.
      let (fits, paid, checked, e) = (validate_parts page b b' d).0 h in
      let (last, sound) = is_ok-value (rows_of page) checked in
      let all = validate_rows_sound page count count 0 last (omega arith) sound in
      (
        fits,
        paid,
        (λ row p. AllFrom-at (IsEntry page count) count 0 row all (omega arith) (omega arith)),
        e,
      ),
  λ (fits, paid, each, e).
      let all = AllFrom-all (IsEntry page count) count 0 (λ k p. each k (omega arith)) in
      let (last, sound) = validate_rows_complete page count count 0 (omega arith) all in
      (validate_parts page b b' d).1 (fits, paid, ap is_ok sound, e),
)
  where
    count : ℕ
    count = declared_row_count page
