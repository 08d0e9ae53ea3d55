-- ===== src/Format/PageImage/Decoding.antt =====
-- A built page is decoded by the row directory to the rows that were appended.
use jet3_rs.Common.{
  ℕ, suc, ◌+◌, ◌≤◌, ◌<◌, ◌≡◌, arith, List, [], ◌∷◌, ◌++◌, length, slice, sym, ap₂, bit_and, ◌∙◌,
  inr, some, false, length-append,
}
use mathlib.Core.Path.{subst}
use native.Mathlib.Decide.{dec_lt}
use jet3_rs.Common.Results.{done}
use jet3_rs.Format.Resource.{ResourceBudget, charge_items}
use jet3_rs.Format.DataPageDirectory.{
  DataPageDirectory, DataPageEntry, raw_offset, entry_end, declared_row_count, directory_end_of,
  validate, entry,
}
use jet3_rs.Format.DataPageDirectory.Shape.{
  end_of, IsEntry, masked_start, overflow_flag_bit, hidden_flag_bit,
}
use jet3_rs.Format.DataPageDirectory.Validation.{validate_iff}
use jet3_rs.Format.DataPageDirectory.Rows.{entry_end-end_of}
use jet3_rs.Format.DataPageDirectory.Iteration.{entry_at, entry-entry_at}
use jet3_rs.Format.PageImage.{DataPageBuilder}
use jet3_rs.Format.PageImage.Contents.{Holds, Holds-le, Represents}

-- The row behind the newest would end where the newest starts.
Holds-end_of :
    (page : List ℕ) (rows : List (List ℕ)) (free_end : ℕ)
    → Holds page rows free_end
    → end_of page (length rows) ≡ free_end
Holds-end_of page [] free_end h = sym h
Holds-end_of page (row ∷ older) free_end h = omega (arith, Holds-le page (row ∷ older) free_end h)

Holds-IsEntry :
    (page : List ℕ) (count : ℕ) (rows : List (List ℕ)) (free_end k : ℕ)
    → Holds page rows free_end
    → directory_end_of count ≤ free_end
    → k < length rows
    → IsEntry page count k
Holds-IsEntry page count [] free_end k h room lt = absurd (omega arith)
Holds-IsEntry page count (row ∷ older) free_end k h room lt = elim (dec_lt k (length older)) [
  | yes p ↦ Holds-IsEntry page count older (free_end + length row) k h.3 (omega arith) p
  | no p ↦
      let e : length older ≡ k = omega arith in
      let ends = Holds-end_of page older (free_end + length row) h.3 in
      let inside = Holds-le page (row ∷ older) free_end h in
      subst (λ i. IsEntry page count i) e
        (record {
          known = omega arith;
          after_directory = omega arith;
          ordered = omega arith;
          occupied = inr (omega arith);
        })
]

-- The rows below a row of a page.
Holds-drop :
    (page : List ℕ) (newer rows : List (List ℕ)) (free_end : ℕ)
    → Holds page (newer ++ rows) free_end
    → (end : ℕ) × Holds page rows end
Holds-drop page [] rows free_end h = (free_end, h)
Holds-drop page (row ∷ newer) rows free_end h =
    Holds-drop page newer rows (free_end + length row) h.3

-- The directory that decoding the builder's page starts from.
abbrev pub directory_of : DataPageBuilder → DataPageDirectory
directory_of b = record { row_count = b.row_count; next_row = 0 }

-- The page of a builder is accepted by the directory's check, where the budget allows its rows as
-- items. The entry of each row that was appended is there under its slot, with no flag, and its
-- range holds exactly the row's bytes.
pub validate-Represents :
    (b : DataPageBuilder) (budget budget' : ResourceBudget) (newer older : List (List ℕ))
    (row : List ℕ)
    → Represents b (newer ++ (row ∷ older))
    → charge_items b.row_count budget ≡ done tt budget'
    → let page = b.image.bytes in
      (e : DataPageEntry) × (validate page budget ≡ done (directory_of b) budget')
      × (entry (directory_of b) page (length older) ≡ some e)
      × (slice page e.start e.end ≡ row)
      × (e.overflow ≡ false)
      × (e.hidden ≡ false)
validate-Represents b budget budget' newer older row v paid =
    let page = b.image.bytes in
    let many : length (newer ++ (row ∷ older)) ≡ length newer + suc (length older) =
      length-append newer (row ∷ older) in
    let declared : declared_row_count page ≡ b.row_count = v.declared ∙ sym v.count in
    let (end, held) = Holds-drop page newer (row ∷ older) b.free_end v.holds in
    let inside = Holds-le page (row ∷ older) end held in
    let raw = raw_offset page (length older) in
    let starts : bit_and raw 0x1fff ≡ end = omega (arith, masked_start raw) in
    let ends : entry_end page (length older) ≡ end + length row =
      entry_end-end_of page (length older) ∙ Holds-end_of page older (end + length row) (held.3) in
    (
      entry_at page (length older),
      (validate_iff page budget budget' (directory_of b)).1 (
        omega arith,
        rw declared paid,
        (λ k p.
            Holds-IsEntry page (declared_row_count page) (newer ++ (row ∷ older)) b.free_end k
              v.holds (omega arith) (omega arith)),
        cc declared,
      ),
      entry-entry_at (directory_of b) page (length older) (omega arith),
      ap₂ (slice page) starts ends ∙ held.2,
      ground (arith, overflow_flag_bit raw),
      ground (arith, hidden_flag_bit raw),
    )
