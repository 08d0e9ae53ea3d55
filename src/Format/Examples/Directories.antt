-- ===== src/Format/Examples/Directories.antt =====
-- A page of two rows, one of them deleted, read by the row directory.
use jet3_rs.Common.{ℕ, ◌≤◌, ◌≡◌, refl, arith, List, ◌∷◌, ◌++◌, replicate, true, false}
use jet3_rs.Common.Results.{done}
use jet3_rs.Format.Resource.{ResourceBudget, default_limits, new_budget, charge_items}
use jet3_rs.Format.DataPageDirectory.{
  DataPageDirectory, DataPageEntry, page_bytes, directory_end_of, validate, entry, validate_rows,
  validate_entry,
}
use jet3_rs.Format.DataPageDirectory.Validation.{validate_iff}
use jet3_rs.Format.DataPageDirectory.Rows.{entry-disjoint}

-- Row 0 is the last 4 bytes; row 1 is empty and hidden, at 0x07fc.
abbrev page : List ℕ
page = 1 ∷ replicate 7 0 ++ (2 ∷ 0 ∷ 0xfc ∷ 0x07 ∷ 0xfc ∷ 0x87 ∷ replicate 2034 9)

abbrev budget : ResourceBudget
budget = new_budget default_limits

abbrev paid : ResourceBudget
paid = record budget { item_work = 2; total_work_units = 2 }

abbrev directory : DataPageDirectory
directory = record { row_count = 2; next_row = 0 }

page_validates : validate page budget ≡ done directory paid
unfolding validate validate_rows validate_entry charge_items
page_validates = refl

validate_iff_example : charge_items 2 budget ≡ done tt paid
validate_iff_example = ((validate_iff page budget paid directory).0 page_validates).1

abbrev first : DataPageEntry
first = record { row = 0; start = 2044; end = 2048; overflow = false; hidden = false }

abbrev second : DataPageEntry
second = record { row = 1; start = 2044; end = 2044; overflow = false; hidden = true }

entry-disjoint_example :
    (second.end ≤ first.start)
    × (first.start ≤ first.end)
    × (first.end ≤ page_bytes)
    × (directory_end_of directory.row_count ≤ second.start)
    × (second.start ≤ second.end)
unfolding entry
entry-disjoint_example =
    entry-disjoint page budget paid directory 0 1 first second page_validates refl refl
      (omega arith)
