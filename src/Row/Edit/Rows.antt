-- ===== src/Row/Edit/Rows.antt =====
-- The rows of a page as lists of bytes: a change of one row leaves the others as they were.
use jet3_rs.Common.{
  ℕ, zero, suc, ◌+◌, ◌-◌, ◌≤◌, ◌<◌, ◌≡◌, refl, arith, List, [], ◌∷◌, length, ap, ap₂, sym, ◌∙◌,
}
use native.Mathlib.Decide.{dec_lt}
use mathlib.Core.Path.{subst}
use jet3_rs.Common.Bytes.{byte_at}
use jet3_rs.Format.DataPageDirectory.{raw_offset}
use jet3_rs.Format.DataPageDirectory.Shape.{start_of, end_of, IsEntry}
use jet3_rs.Format.DataPageDirectory.Rows.{start-le_start, end_of-le_page}
use jet3_rs.Row.Edit.Facts.{row_length}

-- So many bytes from a place on.
unfoldable pub bytes_from : List ℕ → ℕ → ℕ → List ℕ
bytes_from page at zero = []
bytes_from page at (suc n) = byte_at page at ∷ bytes_from page (suc at) n

-- The bytes of the row of a slot.
abbrev pub row_of : List ℕ → ℕ → List ℕ
row_of page k = bytes_from page (start_of (raw_offset page k)) (row_length page k)

pub bytes_from_agree :
    (xs ys : List ℕ) (at at' n : ℕ)
    → ((j : ℕ) → j < n → byte_at xs (at + j) ≡ byte_at ys (at' + j))
    → bytes_from xs at n ≡ bytes_from ys at' n
unfolding bytes_from
bytes_from_agree xs ys at at' zero h = refl
bytes_from_agree xs ys at at' (suc n) h =
    let e : at + 0 ≡ at = omega arith in
    let e' : at' + 0 ≡ at' = omega arith in
    ap₂ ◌∷◌ (rw e' at (rw e at (h 0 (omega arith)))) (
      bytes_from_agree xs ys (suc at) (suc at') n (λ j lt.
        let s : suc at + j ≡ at + suc j = omega arith in
        let s' : suc at' + j ≡ at' + suc j = omega arith in rw s (rw s' (h (suc j) (omega arith)))))

-- A row that is written out is read back.
pub bytes_from_all :
    (page row : List ℕ) (at : ℕ)
    → ((j : ℕ) → j < length row → byte_at page (at + j) ≡ byte_at row j)
    → bytes_from page at (length row) ≡ row
unfolding bytes_from
bytes_from_all page [] at h = refl
bytes_from_all page (x ∷ row) at h =
    let e : at + 0 ≡ at = omega arith in
    ap₂ ◌∷◌ (rw e at (h 0 (omega arith))) (
      bytes_from_all page row (suc at)
        (λ j lt. let s : suc at + j ≡ at + suc j = omega arith in rw s (h (suc j) (omega arith))))

module _ (page after : List ℕ) (slot count new low : ℕ)
    (all : (row : ℕ) → row < count → IsEntry page count row) (has_slot : slot < count)
    (lowest : low ≡ start_of (raw_offset page (count - 1)))
    (room : new ≤ low + row_length page slot)
    (before : (k : ℕ) → k < slot → raw_offset after k ≡ raw_offset page k)
    (here : start_of (raw_offset after slot) + new ≡ end_of page slot)
    (behind : (k : ℕ)
      → slot < k
      → k < count
      → raw_offset after k + new ≡ raw_offset page k + row_length page slot)
    (above : (i : ℕ) → end_of page slot ≤ i → byte_at after i ≡ byte_at page i)
    (below : (i : ℕ)
      → low ≤ i
      → i < start_of (raw_offset page slot)
      → byte_at after (i + row_length page slot - new) ≡ byte_at page i) where
  -- Where the row of a slot ends is where the row before it starts.
  end_before : (k : ℕ) → k ≤ slot → end_of after k ≡ end_of page k
  end_before zero h = refl
  end_before (suc k) h = ap start_of (before k (omega arith))

  start_behind :
      (k : ℕ)
      → slot < k
      → k < count
      → (low ≤ start_of (raw_offset page k))
        × (start_of (raw_offset after k) + new
            ≡ start_of (raw_offset page k) + row_length page slot)
  start_behind k lt inside =
      let under = start-le_start page count k (count - 1) all (omega arith) (omega arith) in
      let over = start-le_start page count slot k all (omega arith) inside in
      let top = end_of-le_page page count slot all has_slot in
      let ordered = (all slot has_slot).ordered in
      let moved = behind k lt inside in (omega arith, omega arith)

  end_behind :
      (k : ℕ)
      → slot < k
      → k < count
      → (end_of after k + new ≡ end_of page k + row_length page slot)
        × (end_of page k ≤ start_of (raw_offset page slot))
  end_behind zero lt inside = absurd (omega arith)
  end_behind (suc k) lt inside = elim (dec_lt slot k) [
    | yes p ↦ (
      (start_behind k p (omega arith)).1,
      start-le_start page count slot k all (omega arith) (omega arith),
    )
    | no p ↦
        let e : slot ≡ k = omega arith in
        let ordered = (all slot has_slot).ordered in
        subst
          (λ j.
            (start_of (raw_offset after j) + new
              ≡ start_of (raw_offset page j) + row_length page slot)
            × (start_of (raw_offset page j) ≤ start_of (raw_offset page slot)))
          e (omega arith, omega arith)
  ]

  same_row_before : (k : ℕ) → k < slot → row_of after k ≡ row_of page k
  same_row_before k lt =
      let start : start_of (raw_offset after k) ≡ start_of (raw_offset page k) =
        ap start_of (before k lt) in
      let length : row_length after k ≡ row_length page k =
        omega (arith, start, end_before k (omega arith)) in
      let over = over_slot k slot lt refl in
      rw length (
        bytes_from_agree after page (start_of (raw_offset after k)) (start_of (raw_offset page k))
          (row_length page k)
          (λ j h.
            ap (λ n. byte_at after (n + j)) start
            ∙ above (start_of (raw_offset page k) + j) (omega arith)))
    where
      over_slot : (k at : ℕ) → k < at → at ≡ slot → end_of page slot ≤ start_of (raw_offset page k)
      over_slot k zero lt e = absurd (omega arith)
      over_slot k (suc at) lt e =
          subst (λ s. end_of page s ≤ start_of (raw_offset page k)) e
            (start-le_start page count k at all (omega arith) (omega arith))

  same_row_behind : (k : ℕ) → slot < k → k < count → row_of after k ≡ row_of page k
  same_row_behind k lt inside =
      let (under, start) = start_behind k lt inside in
      let (end, over) = end_behind k lt inside in
      let ordered = (all k inside).ordered in
      let length : row_length after k ≡ row_length page k = omega arith in
      rw length (
        bytes_from_agree after page (start_of (raw_offset after k)) (start_of (raw_offset page k))
          (row_length page k)
          (λ j h.
            let at : start_of (raw_offset page k) + j + row_length page slot - new
                ≡ start_of (raw_offset after k) + j =
              omega arith in
            ap (λ n. byte_at after n) (sym at)
            ∙ below (start_of (raw_offset page k) + j) (omega arith) (omega arith)))

  pub same_row : (k : ℕ) → k < count → ¬ (k ≡ slot) → row_of after k ≡ row_of page k
  same_row k inside apart = elim (dec_lt k slot) [
    | yes p ↦ same_row_before k p
    | no p ↦ same_row_behind k (omega arith) inside
  ]

  -- The row of the slot has the new length and ends where it ended.
  pub slot_length : row_length after slot ≡ new
  slot_length = omega (arith, here, end_before slot (omega arith))
