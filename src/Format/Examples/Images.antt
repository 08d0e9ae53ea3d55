-- ===== src/Format/Examples/Images.antt =====
-- A data page built with two rows.
use jet3_rs.Common.{
  ℕ, ◌≡◌, refl, arith, List, copy_at, [], ◌∷◌, ◌++◌, length, slice, some, false, replicate,
}
use jet3_rs.Common.Bytes.{byte_at, to_le_bytes}
use jet3_rs.Common.Results.{done, fail}
use jet3_rs.Format.Resource.{
  ResourceBudget, default_limits, new_budget, charge_items, charge_encoded_bytes,
}
use jet3_rs.Format.Resource.Accounting.{HasU64Limits}
use jet3_rs.Format.DataPageDirectory.{DataPageEntry, validate, entry}
use jet3_rs.Format.PageImage.{
  DataPageBuilder, append_row, new_builder, owned_builder, new_image, write_at, write_field,
  row_writes, free_bytes, encode_offset, empty_row,
}
use jet3_rs.Format.Writer.{seek, write_exact}
use jet3_rs.Format.PageKind.{page_tag}
use jet3_rs.Format.PageImage.Contents.{Represents}
use jet3_rs.Format.PageImage.Start.{started, new_builder-Represents}
use jet3_rs.Format.PageImage.Admission.{append_row_inadmissible}
use jet3_rs.Format.PageImage.Append.{append_row-Represents, append_row_refused}
use jet3_rs.Format.PageImage.Decoding.{directory_of, validate-Represents}

abbrev budget : ResourceBudget
budget = new_budget default_limits

abbrev limits_u64 : HasU64Limits budget.limits
limits_u64 = record {
  allocation_u64 = omega arith;
  decoded_u64 = omega arith;
  encoded_u64 = omega arith;
  items_u64 = omega arith;
  visits_u64 = omega arith;
  work_u64 = omega arith;
}

abbrev page : List ℕ
page = 1 ∷ replicate 3 0 ++ (7 ∷ replicate 2043 0)

abbrev fresh : DataPageBuilder
fresh = started page

abbrev fresh_budget : ResourceBudget
fresh_budget = record budget { encoded_bytes = 4; total_work_units = 4 }

fresh_runs : new_builder 7 budget ≡ done fresh fresh_budget
unfolding new_builder owned_builder new_image page_tag write_at write_field seek write_exact
    charge_encoded_bytes copy_at
fresh_runs = refl

new_builder-Represents_example :
    Represents fresh []
    × (slice fresh.image.bytes 4 8 ≡ to_le_bytes 4 7)
    × (byte_at fresh.image.bytes 0 ≡ 1)
new_builder-Represents_example =
    new_builder-Represents 7 budget fresh_budget fresh limits_u64 fresh_runs

append_row_inadmissible_example : append_row [] (fresh, budget) ≡ fail empty_row (fresh, budget)
append_row_inadmissible_example =
    append_row_inadmissible fresh budget [] (omega arith) (λ p. omega (arith, p.0))

abbrev row : List ℕ
row = 3 ∷ 4 ∷ []

abbrev one_row : DataPageBuilder
one_row = record {
  image = record {
    bytes =
        1 ∷ replicate 3 0 ++ (7 ∷ replicate 3 0 ++ (1 ∷ 0 ∷ 0xfe ∷ 7 ∷ replicate 2034 0 ++ row));
  };
  row_count = 1;
  free_end = 2046;
}

abbrev one_budget : ResourceBudget
one_budget = record budget { encoded_bytes = 6; total_work_units = 6 }

one_row_runs : append_row row (fresh, budget) ≡ done 0 (one_row, one_budget)
unfolding append_row free_bytes encode_offset row_writes write_field seek write_exact
    charge_encoded_bytes copy_at
one_row_runs = refl

fresh-Represents : Represents fresh []
fresh-Represents = (new_builder-Represents 7 budget fresh_budget fresh limits_u64 fresh_runs).0

append_row-Represents_example : Represents one_row (row ∷ []) × (0 ≡ length {A = List ℕ} [])
append_row-Represents_example =
    append_row-Represents fresh one_row budget one_budget [] row 0 fresh-Represents limits_u64
      one_row_runs

append_row_refused_example : Represents fresh []
append_row_refused_example =
    append_row_refused fresh fresh budget budget [] [] empty_row fresh-Represents limits_u64
      (append_row_inadmissible fresh budget [] (omega arith) (λ p. omega (arith, p.0)))

one_row-Represents : Represents one_row (row ∷ [])
one_row-Represents =
    (append_row-Represents fresh one_row budget one_budget [] row 0 fresh-Represents limits_u64
      one_row_runs).0

abbrev checked_budget : ResourceBudget
checked_budget = record budget { item_work = 1; total_work_units = 1 }

validate-Represents_example :
    (e : DataPageEntry) × (validate one_row.image.bytes budget
      ≡ done (directory_of one_row) checked_budget)
    × (entry (directory_of one_row) one_row.image.bytes 0 ≡ some e)
    × (slice one_row.image.bytes e.start e.end ≡ row)
    × (e.overflow ≡ false)
    × (e.hidden ≡ false)
unfolding charge_items
validate-Represents_example =
    validate-Represents one_row budget checked_budget [] [] row (one_row-Represents) refl
