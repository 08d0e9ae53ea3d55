-- ===== src/Format/PageImage/Admission.antt =====
-- The tests that `append_row` makes before it writes.
use jet3_rs.Common.{
  ℕ, ◌+◌, ◌-◌, ◌*◌, ◌≤◌, ◌<◌, ◌≡◌, refl, arith, List, length, ◌⊎◌, inl, inr, bit_and, some, ◌==◌,
  leb, if◌then◌else◌, min, ◌^◌, ==_iff,
}
use native.Mathlib.Decide.{dec_lt, dec_le}
use jet3_rs.Common.Bits.{test_below}
use jet3_rs.Common.Results.{Outcome, done, fail}
use jet3_rs.Format.Error.{Error}
use jet3_rs.Format.Resource.{ResourceBudget}
use jet3_rs.Format.Writer.{BinaryWriter, new_writer}
use jet3_rs.Format.PageImage.{
  PageImageError, encoding, empty_row, row_slots_exhausted, page_full, DataPageBuilder, free_bytes,
  encode_offset, row_writes, append_row, max_built_rows,
}

-- No start inside a page has a flag bit.
encode_offset_inside : (start : ℕ) → start ≤ 2048 → encode_offset start ≡ some start
unfolding encode_offset
encode_offset_inside start h =
    ground (
      arith,
      (==_iff _ _).0 (test_below (λ x. bit_and x 0xe000 == 0) 2049 start refl (omega arith)),
    )

-- The builder and the budget after the writes.
unfoldable pub after_writes :
    DataPageBuilder
    → ℕ
    → Outcome Error BinaryWriter (Unit {0})
    → Outcome PageImageError (DataPageBuilder × ResourceBudget) ℕ
after_writes b start (done _ w) = done b.row_count (
  record { image = record { bytes = w.output }; row_count = b.row_count + 1; free_end = start },
  w.budget,
)
after_writes b start (fail e w) =
    fail (encoding e) (record b { image = record { bytes = w.output } }, w.budget)

-- The tests that a row passes before anything is written.
abbrev pub Admissible : DataPageBuilder → List ℕ → Type 0
Admissible b row =
    (0 < length row) × (b.row_count < max_built_rows) × (length row + 2 ≤ free_bytes b)

pub append_row-Admissible :
    (b : DataPageBuilder) (budget : ResourceBudget) (row : List ℕ) (count : ℕ)
    → Admissible b row
    → b.free_end ≤ 2048
    → b.row_count ≡ count
    → let start = b.free_end - length row in
      append_row row (b, budget)
      ≡ after_writes b start
          (row_writes row start (10 + 2 * count) start count (new_writer b.image.bytes budget))
unfolding append_row after_writes
append_row-Admissible b budget row count h small same =
    ground (arith, encode_offset_inside (b.free_end - length row) (omega arith))

-- The error of a row that does not pass them.
abbrev pub refusal : DataPageBuilder → List ℕ → PageImageError
refusal b row =
    if length row == 0
    then empty_row
    else if leb max_built_rows b.row_count
    then row_slots_exhausted max_built_rows
    else page_full (min (length row + 2) (2 ^ 64 - 1)) (free_bytes b)

-- A row that is empty, that finds no free slot, or that does not fit with its directory entry into
-- the free bytes of a page is refused with the error for the first of these that holds, and the
-- builder and the budget are as they were.
pub append_row_inadmissible :
    (b : DataPageBuilder) (budget : ResourceBudget) (row : List ℕ)
    → b.free_end ≤ 2048
    → ¬ (Admissible b row)
    → append_row row (b, budget) ≡ fail (refusal b row) (b, budget)
unfolding append_row
append_row_inadmissible b budget row small h = ground (arith, some_test_fails)
  where
    some_test_fails :
        (length row ≡ 0) ⊎ ((max_built_rows ≤ b.row_count) ⊎ (free_bytes b < length row + 2))
    some_test_fails = elim (dec_lt 0 (length row)) [
      | no p ↦ inl (omega arith)
      | yes p ↦ elim (dec_lt b.row_count max_built_rows) [
        | no q ↦ inr (inl (omega arith))
        | yes q ↦ elim (dec_le (length row + 2) (free_bytes b)) [
          | no r ↦ inr (inr (omega arith))
          | yes r ↦ absurd (h (p, q, r))
        ]
      ]
    ]

pub Admissible-cases :
    (b : DataPageBuilder) (row : List ℕ) → Admissible b row ⊎ ¬ (Admissible b row)
Admissible-cases b row = elim (dec_lt 0 (length row)) [
  | no p ↦ inr (λ h. p h.0)
  | yes p ↦ elim (dec_lt b.row_count max_built_rows) [
    | no q ↦ inr (λ h. q h.1)
    | yes q ↦ elim (dec_le (length row + 2) (free_bytes b)) [
      | no r ↦ inr (λ h. r h.2)
      | yes r ↦ inl (p, q, r)
    ]
  ]
]
