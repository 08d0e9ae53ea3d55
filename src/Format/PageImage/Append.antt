-- ===== src/Format/PageImage/Append.antt =====
-- `append_row` against the list of rows that the page holds.
use jet3_rs.Common.{ℕ, ◌+◌, ◌-◌, ◌*◌, ◌≤◌, ◌≡◌, refl, arith, List, ◌∷◌, length, ◌∙◌, sym, inl, inr}
use mathlib.Core.Path.{subst}
use jet3_rs.Common.Results.{Outcome, done, fail}
use jet3_rs.Format.Error.{Error}
use jet3_rs.Format.Resource.{ResourceBudget}
use jet3_rs.Format.Resource.Accounting.{HasU64Limits}
use jet3_rs.Format.DataPageDirectory.{declared_row_count}
use jet3_rs.Format.Writer.{BinaryWriter, new_writer}
use jet3_rs.Format.PageImage.{PageImageError, DataPageBuilder, free_bytes, row_writes, append_row}
use jet3_rs.Format.PageImage.Writing.{
  Appended, all_written, none_written, row_written, entry_written, row_writes-Appended,
}
use jet3_rs.Format.PageImage.Contents.{
  Holds, Holds-le, Represents, len_count, with_row-Holds, with_entry-Holds, with_count-Holds,
}
use jet3_rs.Format.PageImage.Admission.{
  Admissible, Admissible-cases, after_writes, append_row-Admissible, append_row_inadmissible,
}

module _ (b : DataPageBuilder) (rows : List (List ℕ)) (row : List ℕ) (v : Represents b rows)
    (fits : Admissible b row) where
  abbrev start : ℕ
  start = b.free_end - length row

  -- The facts about the place of the row that the lemmas on the page's contents want.
  place :
      (start + length row ≡ b.free_end) × (10 + 2 * length rows + 2 ≤ start) × (b.free_end ≤ 2048)
  unfolding free_bytes
  place = omega (arith, Holds-le b.image.bytes rows b.free_end v.holds)

  abbrev Result : Outcome Error BinaryWriter (Unit {0}) → Type 0
  Result = Appended b.image.bytes row start (10 + 2 * length rows) start (length rows)

  -- A page with the same rows, in the builder as it was.
  kept :
      (page : List ℕ)
      → length page ≡ 2048
      → declared_row_count page ≡ declared_row_count b.image.bytes
      → Holds page rows b.free_end
      → Represents (record b { image = record { bytes = page } }) rows
  kept page size declared holds = record {
    size = size;
    count = v.count;
    declared = declared ∙ v.declared;
    bounded = v.bounded;
    room = v.room;
    holds = holds;
  }

  done-Represents :
      (o : Outcome Error BinaryWriter (Unit {0})) (slot : ℕ) (b' : DataPageBuilder)
      (budget : ResourceBudget)
      → Result o
      → after_writes b start o ≡ done slot (b', budget)
      → Represents b' (row ∷ rows) × (slot ≡ length rows)
  unfolding after_writes
  done-Represents _ slot b' budget (all_written w e) h =
      let (room, clear, inside) = place in
      let (declared, holds) =
        with_count-Holds b.image.bytes row rows b.free_end start v.size room clear v.holds fits.0
          (omega arith) (omega arith) in
      let size =
        len_count b.image.bytes row rows b.free_end start v.size room clear v.holds start
          (length rows) in
      let after : record {
        image = record { bytes = w.output };
        row_count = b.row_count + 1;
        free_end = start;
      }
          ≡ b' =
        cc h in
      (
        rw (← after) (record {
          size = rw e size;
          count = omega arith;
          declared = rw e declared;
          bounded = omega arith;
          room = omega arith;
          holds = subst (λ (p : List ℕ). Holds p (row ∷ rows) start) (sym e) holds;
        }),
        cc (h, v.count),
      )
  done-Represents _ slot b' budget (none_written x w e) h = cc
  done-Represents _ slot b' budget (row_written x w e) h = cc
  done-Represents _ slot b' budget (entry_written x w e) h = cc

  fail-Represents :
      (o : Outcome Error BinaryWriter (Unit {0})) (x : PageImageError) (b' : DataPageBuilder)
      (budget : ResourceBudget)
      → Result o
      → after_writes b start o ≡ fail x (b', budget)
      → Represents b' rows
  unfolding after_writes
  fail-Represents _ x b' budget (all_written w e) h = cc
  fail-Represents _ x b' budget (none_written y w e) h =
      let after : record b { image = record { bytes = w.output } } ≡ b' = cc h in
      rw (← after) (
        kept w.output (rw e v.size) (rw e)
          (subst (λ (p : List ℕ). Holds p rows b.free_end) (sym e) v.holds))
  fail-Represents _ x b' budget (row_written y w e) h =
      let (room, clear, inside) = place in
      let (size, declared, holds) =
        with_row-Holds b.image.bytes row rows b.free_end start v.size room clear v.holds in
      let after : record b { image = record { bytes = w.output } } ≡ b' = cc h in
      rw (← after) (
        kept w.output (rw e size) (rw e declared)
          (subst (λ (p : List ℕ). Holds p rows b.free_end) (sym e) holds))
  fail-Represents _ x b' budget (entry_written y w e) h =
      let (room, clear, inside) = place in
      let (size, declared, holds) =
        with_entry-Holds b.image.bytes row rows b.free_end start v.size room clear v.holds start in
      let after : record b { image = record { bytes = w.output } } ≡ b' = cc h in
      rw (← after) (
        kept w.output (rw e size) (rw e declared)
          (subst (λ (p : List ℕ). Holds p rows b.free_end) (sym e) holds))

writes-Appended :
    (b : DataPageBuilder) (budget : ResourceBudget) (rows : List (List ℕ)) (row : List ℕ)
    → Represents b rows
    → HasU64Limits budget.limits
    → Admissible b row
    → let start = b.free_end - length row in
      Appended b.image.bytes row start (10 + 2 * length rows) start (length rows) (
        row_writes row start
          (10 + 2 * length rows)
          start
          (length rows)
          (new_writer b.image.bytes budget))
writes-Appended b budget rows row v u fits =
    let (_, clear, inside) = place b rows row v fits in
    row_writes-Appended b.image.bytes row (b.free_end - length row) (10 + 2 * length rows)
      (b.free_end - length row) (length rows) (omega (arith, v.size)) (omega (arith, v.size))
      (new_writer b.image.bytes budget)
      (record {
        same_capacity = refl;
        inside = omega arith;
        capacity_u64 = omega (arith, v.size);
        limits_u64 = u;
      })
      refl (omega (arith, v.size))

-- Where the budget's limits are `u64` values, a row that `append_row` accepts is added to the rows
-- that the page holds and gets the next slot.
pub append_row-Represents :
    (b b' : DataPageBuilder) (budget budget' : ResourceBudget) (rows : List (List ℕ)) (row : List ℕ)
    (slot : ℕ)
    → Represents b rows
    → HasU64Limits budget.limits
    → append_row row (b, budget) ≡ done slot (b', budget')
    → Represents b' (row ∷ rows) × (slot ≡ length rows)
append_row-Represents b b' budget budget' rows row slot v u h = elim (Admissible-cases b row) [
  | inl fits ↦
      let (_, _, inside) = place b rows row v fits in
      let runs = append_row-Admissible b budget row (length rows) fits inside v.count in
      done-Represents b rows row v fits _ slot b' budget'
        (writes-Appended b budget rows row v u fits) (sym runs ∙ h)
  | inr bad ↦
      let inside = Holds-le b.image.bytes rows b.free_end v.holds in
      cc (append_row_inadmissible b budget row inside bad)
]

-- Where the limits are `u64` values, a row that `append_row` refuses, also in the middle of its
-- writes, leaves a page that holds the same rows as before.
pub append_row_refused :
    (b b' : DataPageBuilder) (budget budget' : ResourceBudget) (rows : List (List ℕ)) (row : List ℕ)
    (e : PageImageError)
    → Represents b rows
    → HasU64Limits budget.limits
    → append_row row (b, budget) ≡ fail e (b', budget')
    → Represents b' rows
append_row_refused b b' budget budget' rows row e v u h = elim (Admissible-cases b row) [
  | inl fits ↦
      let (_, _, inside) = place b rows row v fits in
      let runs = append_row-Admissible b budget row (length rows) fits inside v.count in
      fail-Represents b rows row v fits _ e b' budget' (writes-Appended b budget rows row v u fits)
        (sym runs ∙ h)
  | inr bad ↦
      let inside = Holds-le b.image.bytes rows b.free_end v.holds in
      let same : b ≡ b' = cc (append_row_inadmissible b budget row inside bad) in rw (← same) v
]
