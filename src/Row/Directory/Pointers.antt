-- ===== src/Row/Directory/Pointers.antt =====
-- The loop of `validate` looks at every row.
use jet3_rs.Common.{
  ℕ, zero, suc, ◌+◌, ◌-◌, ◌≤◌, ◌<◌, ◌≡◌, refl, arith, List, ◌⊎◌, if◌then◌else◌, not, ◌&&◌, ◌==◌,
  ltb, ◌∙◌, ◌↔◌,
}
use mathlib.Core.Path.{subst}
use native.Mathlib.Decide.{dec_lt}
use jet3_rs.Common.Results.{Result, ok, err}
use jet3_rs.Format.DataPageDirectory.{
  DataPageDirectory, DataPageEntry, raw_offset, next_entry, entry,
}
use jet3_rs.Format.DataPageDirectory.Shape.{
  start_of, end_of, overflow_bit, hidden_bit, masked_start, overflow_flag_bit, hidden_flag_bit,
}
use jet3_rs.Format.DataPageDirectory.Rows.{entry_end-end_of}
use jet3_rs.Format.DataPageDirectory.Iteration.{entry_at}
use jet3_rs.Row.Directory.{
  RowDirectoryError, invalid_overflow_pointer_length, row_slot_not_representable, check_pointers,
}

-- A visible overflow row holds four bytes.
abbrev pub IsPointer : List ℕ → ℕ → Type 0
IsPointer page row =
    (hidden_bit (raw_offset page row) ≡ 1)
    ⊎ ((overflow_bit (raw_offset page row) ≡ 0)
        ⊎ (end_of page row - start_of (raw_offset page row) ≡ 4))

-- One time round the loop.
abbrev check_then :
    ℕ → DataPageEntry → Result RowDirectoryError (Unit {0}) → Result RowDirectoryError (Unit {0})
check_then row_count e rest =
    if e.overflow && (not e.hidden && not (e.end - e.start == 4))
    then (if ltb e.row 256
        then err (invalid_overflow_pointer_length e.row (e.end - e.start))
        else err (row_slot_not_representable row_count))
    else rest

check_pointers_step :
    (fuel : ℕ) (page : List ℕ) (n : ℕ) (d : DataPageDirectory)
    → d.next_row < d.row_count
    → check_pointers (suc fuel) page n d
      ≡ check_then n
          (entry_at page d.next_row)
          (check_pointers fuel page n (record d { next_row = suc d.next_row }))
unfolding check_pointers next_entry entry
check_pointers_step fuel page n d h = ground arith

check_pointers_end :
    (fuel : ℕ) (page : List ℕ) (n : ℕ) (d : DataPageDirectory)
    → d.row_count ≤ d.next_row
    → check_pointers fuel page n d ≡ ok tt
unfolding check_pointers next_entry
check_pointers_end zero page n d h = refl
check_pointers_end (suc fuel) page n d h = ground arith

check_then_iff :
    (page : List ℕ) (n row : ℕ) (rest : Result RowDirectoryError (Unit {0}))
    → (check_then n (entry_at page row) rest ≡ ok tt) ↔ (IsPointer page row × (rest ≡ ok tt))
check_then_iff page n row rest = (
  λ p. ground (
    arith,
    masked_start (raw_offset page row),
    overflow_flag_bit (raw_offset page row),
    hidden_flag_bit (raw_offset page row),
    entry_end-end_of page row,
  ),
  λ p. ground (
    arith,
    masked_start (raw_offset page row),
    overflow_flag_bit (raw_offset page row),
    hidden_flag_bit (raw_offset page row),
    entry_end-end_of page row,
  ),
)

pub check_pointers_sound :
    (fuel : ℕ) (page : List ℕ) (n : ℕ) (d : DataPageDirectory) (k : ℕ)
    → d.next_row + fuel ≡ suc d.row_count
    → check_pointers fuel page n d ≡ ok tt
    → d.next_row ≤ k
    → k < d.row_count
    → IsPointer page k
check_pointers_sound zero page n d k f h lo hi = absurd (omega arith)
check_pointers_sound (suc fuel) page n d k f h lo hi =
    let step = check_pointers_step fuel page n d (omega arith) in
    let after = check_pointers fuel page n (record d { next_row = suc d.next_row }) in
    let both : IsPointer page d.next_row × (after ≡ ok tt) =
      (check_then_iff page n d.next_row after).0 (rw (← step) h) in
    elim (dec_lt d.next_row k) [
      | yes p ↦
          check_pointers_sound fuel page n (record d { next_row = suc d.next_row }) k (omega arith)
            both.1 (omega arith) hi
      | no p ↦ let e : d.next_row ≡ k = omega arith in subst (λ r. IsPointer page r) e both.0
    ]

pub check_pointers_complete :
    (fuel : ℕ) (page : List ℕ) (n : ℕ) (d : DataPageDirectory)
    → ((k : ℕ) → k < d.row_count → IsPointer page k)
    → check_pointers fuel page n d ≡ ok tt
unfolding check_pointers
check_pointers_complete zero page n d all = refl
check_pointers_complete (suc fuel) page n d all = elim (dec_lt d.next_row d.row_count) [
  | yes p ↦
      check_pointers_step fuel page n d p
      ∙ (check_then_iff page n d.next_row _).1 (
        all d.next_row p,
        check_pointers_complete fuel page n (record d { next_row = suc d.next_row }) all,
      )
  | no p ↦ check_pointers_end (suc fuel) page n d (omega arith)
]
