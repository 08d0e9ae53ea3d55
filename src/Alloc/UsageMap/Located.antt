-- ===== src/Alloc/UsageMap/Located.antt =====
-- `locate_usage_map` accepts exactly the well-formed pages of map rows.
use jet3_rs.Common.{
  ℕ, zero, suc, ◌+◌, ◌*◌, ◌/◌, ◌%◌, ◌≤◌, ◌<◌, ◌≡◌, refl, arith, List, ◌↔◌, ◌⊎◌, true, false, ap,
  ◌∙◌, bit_and, slice, Option, some, none, ◌==◌, if◌then◌else◌,
}
use native.Mathlib.Decide.{dec_lt}
use jet3_rs.Common.Bits.{bit_and_high, bit_and_mask}
use jet3_rs.Common.Bytes.{AllBytes, u16_at-lt}
use jet3_rs.Common.Ranges.{AllFrom, AllFrom-at, AllFrom-all}
use jet3_rs.Common.Results.{Result, ok, err, done, and_then-eq_ok}
use jet3_rs.Format.Resource.{ResourceBudget, charge_items, charge_work_units}
use jet3_rs.Format.Resource.Charges.{items, work}
use jet3_rs.Format.Resource.Accounting.{Fits, spend, HasU64Limits}
use jet3_rs.Format.PageKind.{ClassifiedPage, data_page}
use jet3_rs.Format.DataPageDirectory.{
  page_bytes, max_row_count, declared_row_count, raw_offset, directory_end_of,
}
use jet3_rs.Format.DataPageDirectory.Shape.{start_of, end_of, masked_start}
use jet3_rs.Alloc.Map.{Range}
use jet3_rs.Alloc.UsageMap.{
  MapRowLocator, UsageMapError, UsageMapRecord, check_row, select_row, locate_usage_map,
}

-- The word of a map row: a row in use has no flag and some bytes behind the directory; a deleted row
-- has both flags and no bytes, and is not the requested one.
abbrev pub IsMapWord : ℕ → ℕ → ℕ → ℕ → ℕ → Type 0
IsMapWord requested row raw row_end directory_end =
    ((raw ≤ 2047) × (directory_end ≤ raw) × (raw < row_end))
    ⊎ (¬ (row ≡ requested)
        × (raw / 8192 ≡ 6)
        × (directory_end ≤ start_of raw)
        × (start_of raw ≡ row_end))

deleted_flags : (raw : ℕ) → bit_and raw 0xe000 ≡ raw / 8192 % 8 * 8192
deleted_flags raw = bit_and_high 13 raw 7 ∙ ap (λ t. t * 8192) (bit_and_mask 3 (raw / 8192))

check_row_iff :
    (requested row raw row_end directory_end start : ℕ)
    → raw < 65536
    → row_end ≤ page_bytes
    → (check_row requested row raw row_end directory_end ≡ ok start)
      ↔ (IsMapWord requested row raw row_end directory_end × (start ≡ start_of raw))
unfolding check_row
check_row_iff requested row raw row_end directory_end start word h = (
  λ p. ground (arith, masked_start raw, deleted_flags raw),
  λ p. ground (arith, masked_start raw, deleted_flags raw),
)

abbrev pub IsMapRow : List ℕ → ℕ → ℕ → Type 0
IsMapRow page requested row =
    IsMapWord requested row (raw_offset page row) (end_of page row)
      (directory_end_of (declared_row_count page))

-- What the loop selects: the requested row, when it is among the rows that are left.
abbrev chosen : List ℕ → ℕ → ℕ → ℕ → Option Range → Option Range
chosen page requested zero row selected = selected
chosen page requested (suc left) row selected = chosen page requested left (suc row) (
    if row == requested
    then some (record { start = start_of (raw_offset page row); end = end_of page row })
    else selected)

chosen-before :
    (page : List ℕ) (requested left row : ℕ) (selected : Option Range)
    → requested < row
    → chosen page requested left row selected ≡ selected
chosen-before page requested zero row selected h = refl
chosen-before page requested (suc left) row selected h =
    let apart : (row == requested) ≡ false = ground arith in
    rw apart (chosen-before page requested left (suc row) selected (omega arith))

chosen-requested :
    (page : List ℕ) (requested left row : ℕ) (selected : Option Range)
    → row ≤ requested
    → requested < row + left
    → chosen page requested left row selected
      ≡ some (record { start = start_of (raw_offset page requested); end = end_of page requested })
chosen-requested page requested zero row selected lo hi = absurd (omega arith)
chosen-requested page requested (suc left) row selected lo hi = elim (dec_lt row requested) [
  | yes p ↦ chosen-requested page requested left (suc row) _ p (omega arith)
  | no p ↦
      let here : row ≡ requested = omega arith in
      let same : (requested == requested) ≡ true = ground arith in
      rw here (rw same (chosen-before page requested left (suc requested) _ (omega arith)))
]

module _ (page : List ℕ) (bytes : AllBytes page) (requested : ℕ) where
  abbrev AllRows : ℕ → ℕ → Type 0
  AllRows = AllFrom (IsMapRow page requested)

  select_row_sound :
      (left row : ℕ) (selected s : Option Range)
      → end_of page row ≤ page_bytes
      → select_row page requested
          (directory_end_of (declared_row_count page))
          left
          row
          (end_of page row)
          selected
        ≡ ok s
      → AllRows left row × (s ≡ chosen page requested left row selected)
  unfolding select_row
  select_row_sound zero row selected s h p = (tt, cc p)
  select_row_sound (suc left) row selected s h p =
      let (start, checked, rest) =
        and_then-eq_ok (check_row requested row (raw_offset page row) _ _) _ p in
      let (here, e_start) =
        (check_row_iff requested row (raw_offset page row) _ _ start (u16_at-lt page _ bytes) h).0
          checked in
      let (more, e) = select_row_sound left (suc row) _ s (omega arith) (rw e_start at rest) in
      ((here, more), e)

  select_row_complete :
      (left row : ℕ) (selected : Option Range)
      → end_of page row ≤ page_bytes
      → AllRows left row
      → select_row page requested
          (directory_end_of (declared_row_count page))
          left
          row
          (end_of page row)
          selected
        ≡ ok (chosen page requested left row selected)
  unfolding select_row
  select_row_complete zero row selected h p = refl
  select_row_complete (suc left) row selected h p =
      let checked =
        (check_row_iff requested row (raw_offset page row) _ _ (start_of (raw_offset page row))
            (u16_at-lt page _ bytes) h).1
          (p.0, refl) in
      rw checked (select_row_complete left (suc row) _ (omega arith) p.1)

-- The checks before the loop, and what they charge.
abbrev pub Admitted : ClassifiedPage → MapRowLocator → ResourceBudget → ResourceBudget → Type 0
Admitted page locator b b' =
    (page.number ≡ locator.page)
    × (page.kind ≡ data_page)
    × (declared_row_count page.raw ≤ max_row_count)
    × (locator.row < declared_row_count page.raw)
    × Fits (work 1) b
    × Fits (items (declared_row_count page.raw)) (spend (work 1) b)
    × (b' ≡ spend (items (declared_row_count page.raw)) (spend (work 1) b))

abbrev pub record_at : ClassifiedPage → MapRowLocator → ℕ → ℕ → UsageMapRecord
record_at page locator start end = record {
  location = locator;
  raw = slice page.raw start end;
  start = start;
  end = end;
}

abbrev rows_of : ClassifiedPage → MapRowLocator → Result UsageMapError (Option Range)
rows_of page locator =
    let count = declared_row_count page.raw in
    select_row page.raw locator.row (directory_end_of count) count 0 page_bytes none

locate_selected :
    (page : ClassifiedPage) (locator : MapRowLocator) (b b' : ResourceBudget) (r : UsageMapRecord)
    (range : Range)
    → HasU64Limits b.limits
    → rows_of page locator ≡ ok (some range)
    → (locate_usage_map page locator b ≡ done r b')
      ↔ (Admitted page locator b b' × (r ≡ record_at page locator range.start range.end))
unfolding locate_usage_map charge_work_units charge_items
locate_selected page locator b b' r range u e = (λ p. ground arith, λ p. ground arith)

none_fails :
    (page : ClassifiedPage) (locator : MapRowLocator) (b b' : ResourceBudget) (r : UsageMapRecord)
    → rows_of page locator ≡ ok none
    → ¬ (locate_usage_map page locator b ≡ done r b')
unfolding locate_usage_map charge_work_units charge_items
none_fails page locator b b' r e h = ground arith

err_fails :
    (page : ClassifiedPage) (locator : MapRowLocator) (b b' : ResourceBudget) (r : UsageMapRecord)
    (x : UsageMapError)
    → rows_of page locator ≡ err x
    → ¬ (locate_usage_map page locator b ≡ done r b')
unfolding locate_usage_map charge_work_units charge_items
err_fails page locator b b' r x e h = ground arith

some_selected :
    (page : ClassifiedPage) (locator : MapRowLocator) (b b' : ResourceBudget) (r : UsageMapRecord)
    → locate_usage_map page locator b ≡ done r b'
    → (range : Range) × (rows_of page locator ≡ ok (some range))
some_selected page locator b b' r = by_rows (rows_of page locator) refl
  where
    by_rows :
        (o : Result UsageMapError (Option Range))
        → rows_of page locator ≡ o
        → locate_usage_map page locator b ≡ done r b'
        → (range : Range) × (rows_of page locator ≡ ok (some range))
    by_rows (ok (some range)) e h = (range, e)
    by_rows (ok none) e h = absurd (none_fails page locator b b' r e h)
    by_rows (err x) e h = absurd (err_fails page locator b b' r x e h)

-- For a page of bytes and `u64` limits, a map row is located exactly when the page is the locator's
-- and a data page, its rows fit a page and the locator's row is one of them, the budget allows one
-- unit of work and an item for each row, and every row is either in use, without flags and with some
-- bytes between the directory and the row before, or is an empty deleted row other than the
-- requested one. The record is then the bytes of the requested row, and the budget has paid for just
-- that.
pub locate_usage_map_iff :
    (page : ClassifiedPage) (locator : MapRowLocator) (b b' : ResourceBudget) (r : UsageMapRecord)
    → AllBytes page.raw
    → HasU64Limits b.limits
    → (locate_usage_map page locator b ≡ done r b') ↔ (
        Admitted page locator b b'
        × ((row : ℕ) → row < declared_row_count page.raw → IsMapRow page.raw locator.row row)
        × (r
            ≡ record_at page locator
                (start_of (raw_offset page.raw locator.row))
                (end_of page.raw locator.row)))
locate_usage_map_iff page locator b b' r bytes u = (
  λ h.
      let (range, e) = some_selected page locator b b' r h in
      let (admitted, shape) = (locate_selected page locator b b' r range u e).0 h in
      let (all, s) = select_row_sound page.raw bytes locator.row count 0 none _ (omega arith) e in
      let selected =
        chosen-requested page.raw locator.row count 0 none (omega arith)
          (omega (arith, admitted)) in
      let same : range ≡ record {
        start = start_of (raw_offset page.raw locator.row);
        end = end_of page.raw locator.row;
      } =
        cc (s ∙ selected) in
      (
        admitted,
        λ row lt.
            AllFrom-at (IsMapRow page.raw locator.row) count 0 row all (omega arith) (omega arith),
        rw same at shape,
      ),
  λ (admitted, each, shape).
      let all =
        AllFrom-all (IsMapRow page.raw locator.row) count 0 (λ k lt. each k (omega arith)) in
      let runs = select_row_complete page.raw bytes locator.row count 0 none (omega arith) all in
      let selected =
        chosen-requested page.raw locator.row count 0 none (omega arith)
          (omega (arith, admitted)) in
      (locate_selected page locator b b' r _ u (runs ∙ ap ok selected)).1 (admitted, shape),
)
  where
    count : ℕ
    count = declared_row_count page.raw
