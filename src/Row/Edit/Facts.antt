-- ===== src/Row/Edit/Facts.antt =====
-- What an opened page says of a row that is changed and of the rows below it.
use jet3_rs.Common.{ℕ, ◌+◌, ◌-◌, ◌*◌, ◌≤◌, ◌<◌, ◌≡◌, arith, List, length, ap, sym, ◌∙◌, String}
use mathlib.Core.Path.{subst}
use jet3_rs.Common.Results.{ok, done}
use jet3_rs.Format.Geometry.{PageNumber}
use jet3_rs.Format.Resource.{ResourceBudget, charge_work_units}
use jet3_rs.Format.Resource.Charges.{work, charge}
use jet3_rs.Format.Resource.Accounting.{HasU64Limits, charge_done}
use jet3_rs.Format.DataPageDirectory.{declared_row_count, raw_offset, directory_end_of}
use jet3_rs.Format.DataPageDirectory as Common_directory
use jet3_rs.Format.DataPageDirectory.Shape.{start_of, end_of, IsEntry}
use jet3_rs.Format.DataPageDirectory.Rows.{start-le_start, end_of-le_page}
use jet3_rs.Row.Directory.{RowEntry}
use jet3_rs.Row.Directory as Row_directory
use jet3_rs.Row.DataPage.{DataPageEditor, Packed, open_page, entry, packed}
use jet3_rs.Row.DataPage.Space.{packed_iff, open_page_rows, open_page_entries}
use jet3_rs.Row.Insert.Appended.{lowest_of}
use jet3_rs.Row.Edit.Words.{entry_word}

-- How many bytes the row of a slot has.
abbrev pub row_length : List ℕ → ℕ → ℕ
row_length page slot = end_of page slot - start_of (raw_offset page slot)

-- The numbers that a change of a row starts from: its bounds, and the start of the lowest row.
pub record Facts (page : List ℕ) (slot count start end low : ℕ) : Type 0 where
  pub size : length page ≡ 2048
  pub has_slot : slot < count
  pub few : count ≤ 256
  pub starts : start ≡ start_of (raw_offset page slot)
  pub ends : end ≡ end_of page slot
  pub lowest : low ≡ lowest_of page
  pub counted : count ≡ declared_row_count page
  pub ordered : start ≤ end
  pub in_page : end ≤ 2048
  pub above : 10 + 2 * count ≤ low
  pub below : low ≤ start

entry_inside :
    (editor : DataPageEditor) (slot : ℕ) (e : RowEntry)
    → entry editor slot ≡ ok e
    → slot < editor.directory.inner.row_count
unfolding entry Row_directory.entry Common_directory.entry
entry_inside editor slot e h = ground arith

pub limits_after_work :
    (n : ℕ) (b b' : ResourceBudget)
    → charge_work_units n b ≡ done tt b'
    → HasU64Limits b.limits
    → HasU64Limits b'.limits
unfolding charge
limits_after_work n b b' h u =
    let (_, after) = charge_done (work n) b b' h in
    subst (λ (x : ResourceBudget). HasU64Limits x.limits) (sym after) u

-- An entry and the gap of an opened page give them, and all its entries are well formed.
pub open_page-Facts :
    (number owner : PageNumber) (page : List ℕ) (opening opened : ResourceBudget)
    (editor : DataPageEditor) (message : String) (slot : ℕ) (e : RowEntry) (gap : Packed)
    → open_page number owner page opening ≡ done editor opened
    → length page ≡ 2048
    → entry editor slot ≡ ok e
    → packed editor message ≡ ok gap
    → let count = editor.directory.inner.row_count in
      Facts editor.source slot count e.start e.end gap.lowest
      × (gap.free + (10 + 2 * count) ≡ gap.lowest)
      × (gap.directory_end ≡ 10 + 2 * count)
      × ((row : ℕ) → row < count → IsEntry editor.source count row)
open_page-Facts number owner page opening opened editor message slot e gap o len found is_gap =
    let (source, rows, few) = open_page_rows number owner page opening opened editor o in
    let count = editor.directory.inner.row_count in
    let inside = entry_inside editor slot e found in
    let shape = entry_word editor slot e found in
    let (some_row, lowest, end, free, filled) =
      (packed_iff number owner page opening opened editor message gap o).0 is_gap in
    let all : ((row : ℕ) → row < count → IsEntry editor.source count row) = λ row lt.
      subst (λ p. IsEntry p count row) (sym source)
        (subst (λ n. IsEntry page n row) (sym rows)
          (open_page_entries number owner page opening opened editor row o (omega arith))) in
    let starts : e.start ≡ start_of (raw_offset editor.source slot) =
      ap (λ (x : RowEntry). x.start) shape in
    let ends : e.end ≡ end_of editor.source slot = ap (λ (x : RowEntry). x.end) shape in
    let here = all slot inside in
    let in_page = end_of-le_page editor.source count slot all inside in
    let below =
      start-le_start editor.source count slot (count - 1) all (omega arith) (omega arith) in
    let low : gap.lowest ≡ start_of (raw_offset editor.source (count - 1)) =
      lowest ∙ ap (λ p. start_of (raw_offset p (count - 1))) (sym source) in
    let same_count : count ≡ declared_row_count editor.source =
      rows ∙ ap declared_row_count (sym source) in
    (
      record {
        size = ap length source ∙ len;
        has_slot = inside;
        few = omega arith;
        starts = starts;
        ends = ends;
        lowest = low ∙ ap (λ n. start_of (raw_offset editor.source (n - 1))) same_count;
        counted = same_count;
        ordered = omega (arith, here.ordered);
        in_page = omega arith;
        above = omega arith;
        below = omega arith;
      },
      omega arith,
      omega arith,
      all,
    )
