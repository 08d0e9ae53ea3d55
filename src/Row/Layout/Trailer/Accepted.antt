-- ===== src/Row/Layout/Trailer/Accepted.antt =====
-- crates/jet3/src/row/writer.rs and reader_layout.rs: the reader's checks accept the trailer that the writer
-- writes.
use jet3_rs.Common.{
  ℕ, zero, suc, ◌+◌, ◌-◌, ◌*◌, ◌%◌, ◌≤◌, ◌<◌, ◌≡◌, refl, sym, ap, ◌∙◌, arith, ltb, leb, ◌==◌, true,
  false, Bool-cases, Option, none, some, List, [], ◌∷◌, length, get_or, inl, inr,
}
use jet3_rs.Common.Results.{ok}
use jet3_rs.Row.Layout.{RowLayout, boundary, check_bounds, valid_jump, check_jumps}
use jet3_rs.Row.Layout.Trailer.{position_from, ordinal_byte, jump_byte, write_jumps}
use jet3_rs.Row.Layout.Trailer.Jumps.{IsAscending}
use jet3_rs.Row.Layout.Trailer.Boundaries.{IsAscending-last, IsAscending-next}

-- What the position of the first boundary from the threshold on says of the boundaries.
IsFirst : Option ℕ → (ordinal threshold : ℕ) → List ℕ → Type 0
IsFirst none ordinal threshold bs = (i : ℕ) → i < length bs → get_or bs i 0 < threshold
IsFirst (some p) ordinal threshold bs =
    (ordinal ≤ p)
    × (p < ordinal + length bs)
    × (threshold ≤ get_or bs (p - ordinal) 0)
    × (ltb ordinal p ≡ true → get_or bs (p - ordinal - 1) 0 < threshold)

below_all :
    (threshold b : ℕ) (bs : List ℕ)
    → b < threshold
    → ((i : ℕ) → i < length bs → get_or bs i 0 < threshold)
    → (i : ℕ) → i < length (b ∷ bs)
    → get_or (b ∷ bs) i 0 < threshold
below_all threshold b bs below h zero lt = below
below_all threshold b bs below h (suc i) lt = h i (omega arith)

-- The element before the first one from the threshold on.
below_first :
    (o p threshold b : ℕ) (bs : List ℕ)
    → b < threshold
    → (ltb o p ≡ true → get_or bs (p - o - 1) 0 < threshold)
    → o ≤ p
    → get_or (b ∷ bs) (p - o) 0 < threshold
below_first o p threshold b bs below h le = elim (Bool-cases (ltb o p)) [
  | inl more ↦ let e : p - o ≡ suc (p - o - 1) = ground arith in rw e (h more)
  | inr same ↦ let e : p - o ≡ 0 = ground arith in rw e below
]

later-IsFirst :
    (o : Option ℕ) (ordinal threshold b : ℕ) (bs : List ℕ)
    → b < threshold
    → IsFirst o (ordinal + 1) threshold bs
    → IsFirst o ordinal threshold (b ∷ bs)
unfolding IsFirst
later-IsFirst none ordinal threshold b bs below h = below_all threshold b bs below h
later-IsFirst (some p) ordinal threshold b bs below h =
    let low = h.0 in
    let high = h.1 in
    let here : p - ordinal ≡ suc (p - (ordinal + 1)) = omega arith in
    let before : p - ordinal - 1 ≡ p - (ordinal + 1) = omega arith in
    (
      omega arith,
      omega arith,
      rw here h.2,
      λ q. rw before (below_first (ordinal + 1) p threshold b bs below h.3 low),
    )

position_from-IsFirst :
    (ordinal threshold : ℕ) (bs : List ℕ)
    → IsFirst (position_from ordinal threshold bs) ordinal threshold bs
unfolding position_from IsFirst
position_from-IsFirst ordinal threshold [] = λ i lt. absurd (omega arith)
position_from-IsFirst ordinal threshold (b ∷ bs) = elim (Bool-cases (leb threshold b)) [
  | inl reached ↦
      let e : ordinal - ordinal ≡ 0 = omega arith in
      rw reached (rw e (omega arith, omega arith, ground arith, λ q. absurd (ground arith)))
  | inr below ↦ rw below (
      later-IsFirst (position_from (ordinal + 1) threshold bs) ordinal threshold b bs (ground arith)
        (position_from-IsFirst (ordinal + 1) threshold bs))
]

-- Where the reader finds the boundaries.
abbrev pub HasBoundaries : RowLayout → List ℕ → List ℕ → Type 0
HasBoundaries layout row bs =
    (i : ℕ) → i ≤ layout.variable_count → boundary layout row i ≡ get_or bs i 0

pub check_bounds-ascending :
    (rounds index : ℕ) (layout : RowLayout) (row bs : List ℕ)
    → HasBoundaries layout row bs
    → IsAscending bs
    → length bs ≡ layout.variable_count + 1
    → get_or bs layout.variable_count 0 ≡ layout.offsets_start
    → index + rounds ≡ layout.variable_count
    → check_bounds rounds index (get_or bs index 0) layout row ≡ ok layout.offsets_start
unfolding check_bounds
check_bounds-ascending zero index layout row bs found ascending count last e =
    let same : index ≡ layout.variable_count = omega arith in
    ap ok (ap (λ n. get_or bs n 0) same ∙ last)
check_bounds-ascending (suc rounds) index layout row bs found ascending count last e =
    let end = found (index + 1) (omega arith) in
    let rest =
      check_bounds-ascending rounds (index + 1) layout row bs found ascending count last
        (omega arith) in
    let up = IsAscending-next bs index ascending (omega arith) in
    let most =
      IsAscending-last bs (index + 1) layout.variable_count ascending (sym count) (omega arith) in
    let ordered : ltb (get_or bs (index + 1) 0) (get_or bs index 0) ≡ false = ground arith in
    let inside : ltb layout.offsets_start (get_or bs (index + 1) 0) ≡ false = ground arith in
    rw end (rw ordered (rw inside rest))

valid-ordinal :
    (p threshold : ℕ) (layout : RowLayout) (row bs : List ℕ)
    → HasBoundaries layout row bs
    → p ≤ layout.variable_count
    → layout.variable_count ≤ 255
    → threshold ≤ get_or bs p 0
    → (ltb 0 p ≡ true → get_or bs (p - 1) 0 < threshold)
    → valid_jump layout row threshold p ≡ true
unfolding valid_jump
valid-ordinal p threshold layout row bs found le few here before = elim (Bool-cases (p == 255)) [
  | inl unused ↦
      let p_lem : p ≡ 255 = ground arith in
      let full : layout.variable_count ≡ 255 = omega arith in
      let last : p - 1 ≡ 254 = omega arith in
      let below : get_or bs 254 0 < threshold = rw (← last) (before (ground arith)) in
      rw unused (rw (found 254 (omega arith)) (ground arith))
  | inr used ↦ rw used (
      rw (found p le) (elim (Bool-cases (p == 0)) [
        | inl first ↦ ground arith
        | inr later ↦
            let below = before (ground arith) in rw (found (p - 1) (omega arith)) (ground arith)
      ]))
]

none-valid :
    (layout : RowLayout) (row : List ℕ) (threshold : ℕ)
    → layout.offsets_start < threshold
    → valid_jump layout row threshold 0xff ≡ true
unfolding valid_jump
none-valid layout row threshold h = ground arith

valid-jump :
    (o : Option ℕ) (threshold : ℕ) (layout : RowLayout) (row bs : List ℕ)
    → IsFirst o 0 threshold bs
    → HasBoundaries layout row bs
    → length bs ≡ layout.variable_count + 1
    → layout.variable_count ≤ 255
    → get_or bs layout.variable_count 0 ≡ layout.offsets_start
    → valid_jump layout row threshold (ordinal_byte o) ≡ true
unfolding IsFirst
valid-jump none threshold layout row bs h found count few last =
    none-valid layout row threshold (omega (arith, h layout.variable_count (omega arith)))
valid-jump (some p) threshold layout row bs h found count few last =
    let high = h.1 in
    let whole : p % 256 ≡ p = omega arith in
    let e : p - 0 ≡ p = omega arith in
    rw whole (
      valid-ordinal p threshold layout row bs found (omega arith) few (rw (← e) h.2)
        (λ q. rw (← e) (h.3 q)))

pub check_jumps-write_jumps :
    (jumps position : ℕ) (layout : RowLayout) (row bs : List ℕ)
    → HasBoundaries layout row bs
    → length bs ≡ layout.variable_count + 1
    → layout.variable_count ≤ 255
    → get_or bs layout.variable_count 0 ≡ layout.offsets_start
    → position + jumps ≡ layout.jumps
    → check_jumps layout row position (write_jumps jumps bs) ≡ ok tt
unfolding check_jumps write_jumps jump_byte
check_jumps-write_jumps zero position layout row bs found count few last e = refl
check_jumps-write_jumps (suc jumps) position layout row bs found count few last e =
    let block : layout.jumps - position ≡ suc jumps = omega arith in
    let first = position_from-IsFirst 0 (256 * suc jumps) bs in
    let valid =
      valid-jump (position_from 0 (256 * suc jumps) bs) (256 * suc jumps) layout row bs first found
        count few last in
    rw block (
      rw valid (
        check_jumps-write_jumps jumps (position + 1) layout row bs found count few last
          (omega arith)))
