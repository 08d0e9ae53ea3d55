-- ===== src/Format/PageImage/Contents.antt =====
-- The rows that a page under construction holds, and what writes leave of them.
use jet3_rs.Common.{
  ℕ, suc, ◌+◌, ◌-◌, ◌*◌, ◌≤◌, ◌<◌, ◌≡◌, arith, List, [], ◌∷◌, length, slice, sym, ◌∙◌, ◌⊎◌, inl,
  inr, length-copy_at, length-slice, get_or-slice, get_or_ext, get_or-copy_at_below,
  get_or-copy_at_above, slice-copy_at,
}
use jet3_rs.Common.Bytes.{byte_at, u16_at-copy_at, to_le_bytes}
use jet3_rs.Format.DataPageDirectory.{declared_row_count, raw_offset}
use jet3_rs.Format.PageImage.{DataPageBuilder}
use jet3_rs.Format.PageImage.Writing.{with_row, with_entry, with_count}

-- The rows, newest first, lie one behind the other from `free_end` to the end of the page, and the
-- directory entry of each is where it starts, with no flag.
abbrev pub Holds : List ℕ → List (List ℕ) → ℕ → Type 0
Holds page [] free_end = free_end ≡ 2048
Holds page (row ∷ older) free_end =
    (raw_offset page (length older) ≡ free_end)
    × (0 < length row)
    × (slice page free_end (free_end + length row) ≡ row)
    × Holds page older (free_end + length row)

-- The builder's page holds the given rows, newest first.
pub record Represents (b : DataPageBuilder) (rows : List (List ℕ)) : Type 0 where
  pub size : length b.image.bytes ≡ 2048
  pub count : b.row_count ≡ length rows
  pub declared : declared_row_count b.image.bytes ≡ length rows
  pub bounded : length rows ≤ 255
  pub room : 10 + 2 * length rows ≤ b.free_end
  pub holds : Holds b.image.bytes rows b.free_end

pub Holds-le :
    (page : List ℕ) (rows : List (List ℕ)) (free_end : ℕ)
    → Holds page rows free_end
    → free_end ≤ 2048
Holds-le page [] free_end h = omega arith
Holds-le page (row ∷ older) free_end h =
    omega (arith, Holds-le page older (free_end + length row) h.3)

pub slice_agree :
    (xs ys : List ℕ) (start end : ℕ)
    → length xs ≡ length ys
    → end ≤ length xs
    → ((i : ℕ) → start ≤ i → i < end → byte_at xs i ≡ byte_at ys i)
    → slice xs start end ≡ slice ys start end
slice_agree xs ys start end len inside same =
    get_or_ext 0 (slice xs start end) (slice ys start end)
      (length-slice xs start end inside ∙ sym (length-slice ys start end (omega arith)))
      λ i h.
        let lt : i < end - start = omega (arith, length-slice xs start end inside) in
        get_or-slice xs start end i 0 lt
        ∙ same (start + i) (omega arith) (omega arith)
        ∙ sym (get_or-slice ys start end i 0 lt)

-- Pages that agree on the rows and on their directory entries hold the same rows.
pub Holds-agree :
    (page page' : List ℕ) (rows : List (List ℕ)) (free_end : ℕ)
    → length page ≡ 2048
    → length page' ≡ 2048
    → ((i : ℕ) → free_end ≤ i → byte_at page' i ≡ byte_at page i)
    → ((i : ℕ) → 10 ≤ i → i < 10 + 2 * length rows → byte_at page' i ≡ byte_at page i)
    → Holds page rows free_end
    → Holds page' rows free_end
Holds-agree page page' [] free_end len len' high low h = h
Holds-agree page page' (row ∷ older) free_end len len' high low h = (
  omega (
    arith,
    low (10 + 2 * length older) (omega arith) (omega arith),
    low (10 + 2 * length older + 1) (omega arith) (omega arith),
  ),
  h.1,
  slice_agree page' page free_end (free_end + length row) (omega arith)
        (omega (arith, Holds-le page older (free_end + length row) h.3)) (λ i lo hi. high i lo)
      ∙ h.2,
  Holds-agree page page' older (free_end + length row) len len' (λ i p. high i (omega arith))
      (λ i p q. low i p (omega arith)) h.3,
)

module _ (page row : List ℕ) (rows : List (List ℕ)) (free_end start : ℕ) (len : length page ≡ 2048)
    (room : start + length row ≡ free_end) (clear : 10 + 2 * length rows + 2 ≤ start)
    (holds : Holds page rows free_end) where
  abbrev entry_offset : ℕ
  entry_offset = 10 + 2 * length rows

  with_row_same :
      (i : ℕ) → (i < start) ⊎ (free_end ≤ i) → byte_at (with_row page row start) i ≡ byte_at page i
  with_row_same i (inl p) = get_or-copy_at_below page start row i 0 p
  with_row_same i (inr p) = get_or-copy_at_above page start row i 0 (omega arith)

  with_entry_same :
      (raw i : ℕ)
      → (i < entry_offset) ⊎ (entry_offset + 2 ≤ i)
      → byte_at (with_entry page row start entry_offset raw) i ≡ byte_at (with_row page row start) i
  with_entry_same raw i (inl p) = get_or-copy_at_below _ entry_offset (to_le_bytes 2 raw) i 0 p
  with_entry_same raw i (inr p) = get_or-copy_at_above _ entry_offset (to_le_bytes 2 raw) i 0 p

  with_count_same :
      (raw count i : ℕ)
      → 10 ≤ i
      → byte_at (with_count page row start entry_offset raw count) i
        ≡ byte_at (with_entry page row start entry_offset raw) i
  with_count_same raw count i p = get_or-copy_at_above _ 8 (to_le_bytes 2 (count + 1)) i 0 p

  len_row : length (with_row page row start) ≡ 2048
  len_row = length-copy_at page start row ∙ len

  len_entry : (raw : ℕ) → length (with_entry page row start entry_offset raw) ≡ 2048
  len_entry raw =
      length-copy_at (with_row page row start) entry_offset (to_le_bytes 2 raw) ∙ len_row

  pub len_count : (raw count : ℕ) → length (with_count page row start entry_offset raw count) ≡ 2048
  len_count raw count =
      length-copy_at (with_entry page row start entry_offset raw) 8 (to_le_bytes 2 (count + 1))
      ∙ len_entry raw

  -- The first two writes leave the rows and the row count as they were.
  pub with_row-Holds :
      (length (with_row page row start) ≡ 2048)
      × (declared_row_count (with_row page row start) ≡ declared_row_count page)
      × Holds (with_row page row start) rows free_end
  with_row-Holds = (
    len_row,
    omega (arith, with_row_same 8 (inl (omega arith)), with_row_same 9 (inl (omega arith))),
    Holds-agree page (with_row page row start) rows free_end len len_row
        (λ i p. with_row_same i (inr p)) (λ i p q. with_row_same i (inl (omega arith))) holds,
  )

  pub with_entry-Holds :
      (raw : ℕ)
      → (length (with_entry page row start entry_offset raw) ≡ 2048)
        × (declared_row_count (with_entry page row start entry_offset raw)
            ≡ declared_row_count page)
        × Holds (with_entry page row start entry_offset raw) rows free_end
  with_entry-Holds raw =
      let (_, declared, held) = with_row-Holds in
      (
        len_entry raw,
        omega (
          arith,
          with_entry_same raw 8 (inl (omega arith)),
          with_entry_same raw 9 (inl (omega arith)),
          declared,
        ),
        Holds-agree (with_row page row start) _ rows free_end len_row (len_entry raw)
            (λ i p. with_entry_same raw i (inr (omega arith)))
            (λ i p q. with_entry_same raw i (inl (omega arith))) held,
      )

  entry_word :
      start < 65536
      → raw_offset (with_count page row start entry_offset start (length rows)) (length rows)
        ≡ start
  entry_word small = omega (
    arith,
    with_count_same start (length rows) entry_offset (omega arith),
    with_count_same start (length rows) (entry_offset + 1) (omega arith),
    u16_at-copy_at (with_row page row start) entry_offset start
        (omega (arith, len_row, Holds-le page rows free_end holds)) small,
  )

  count_word :
      (raw : ℕ)
      → length rows < 256
      → declared_row_count (with_count page row start entry_offset raw (length rows))
        ≡ suc (length rows)
  count_word raw small =
      u16_at-copy_at (with_entry page row start entry_offset raw) 8 (length rows + 1)
        (omega (arith, len_entry raw)) (omega arith)
      ∙ omega arith

  row_bytes :
      (raw count : ℕ)
      → slice (with_count page row start entry_offset raw count) start (start + length row) ≡ row
  row_bytes raw count =
      let page_end = Holds-le page rows free_end holds in
      slice_agree _ (with_row page row start) start (start + length row)
        (len_count raw count ∙ sym len_row) (omega (arith, len_count raw count))
        (λ i lo hi.
          with_count_same raw count i (omega arith) ∙ with_entry_same raw i (inr (omega arith)))
      ∙ slice-copy_at page start row (omega arith)

  -- All three writes add the row.
  pub with_count-Holds :
      0 < length row
      → length rows < 256
      → start < 65536
      → let page' = with_count page row start entry_offset start (length rows) in
        (declared_row_count page' ≡ suc (length rows)) × Holds page' (row ∷ rows) start
  with_count-Holds filled few small =
      let page' = with_count page row start entry_offset start (length rows) in
      let (_, _, held) = with_entry-Holds start in
      (
        count_word start few,
        (
          entry_word small,
          filled,
          row_bytes start (length rows),
          Holds-agree (with_entry page row start entry_offset start) page' rows (start + length row)
              (len_entry start) (len_count start (length rows))
              (λ i p. with_count_same start (length rows) i (omega arith))
              (λ i p q. with_count_same start (length rows) i p) (rw room held),
        ),
      )
