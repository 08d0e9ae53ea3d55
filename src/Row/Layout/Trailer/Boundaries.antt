-- ===== src/Row/Layout/Trailer/Boundaries.antt =====
-- crates/jet3/src/row/writer.rs and reader_layout.rs: the reader finds the boundaries that the writer put in
-- the trailer.
use mathlib.Core.List.{append_assoc}
use jet3_rs.Common.{
  ℕ, zero, suc, ◌+◌, ◌-◌, ◌*◌, ◌/◌, ◌%◌, ◌≤◌, ◌<◌, ◌≡◌, refl, sym, ap, ◌∙◌, arith, ◌==◌, Bool-cases,
  List, [], ◌∷◌, ◌++◌, length, length-append, get_or, inl, inr, slice,
}
use jet3_rs.Common.Bytes.{byte_at}
use jet3_rs.Common.Pieces.{
  take-append_whole, drop-append_whole, byte_at-append_left, byte_at-append_right,
}
use jet3_rs.Row.Layout.{RowLayout, boundary, jump_bytes, jump_count}
use jet3_rs.Row.Layout.Trailer.{write_jumps, low_bytes, trailer}
use jet3_rs.Row.Layout.Trailer.Jumps.{
  IsAscending, AllAtLeast-get_or, jumps_before-write_jumps, length-write_jumps,
}

-- The number of jump bytes that the reader computes from the length of a whole row is the one that the
-- writer computed from the length without them.
pub jump_count_unique :
    (length_without_jumps : ℕ)
    → 1 ≤ length_without_jumps
    → (let jumps = jump_count length_without_jumps in
        (length_without_jumps + jumps - 1) / 256 ≡ jumps)
unfolding jump_count
jump_count_unique length_without_jumps h = omega arith

length-low_bytes : (bs : List ℕ) → length (low_bytes bs) ≡ length bs
unfolding low_bytes
length-low_bytes [] = refl
length-low_bytes (b ∷ bs) =
    omega (arith, length-append (low_bytes bs) (b % 256 ∷ []), length-low_bytes bs)

low_bytes-get_or :
    (bs : List ℕ) (i j : ℕ) → i + j + 1 ≡ length bs → byte_at (low_bytes bs) j ≡ get_or bs i 0 % 256
unfolding low_bytes
low_bytes-get_or [] i j h = absurd (omega arith)
low_bytes-get_or (b ∷ bs) zero j h =
    let whole : j ≡ length bs + 0 = omega arith in
    rw whole
      (byte_at-append_right (low_bytes bs) (b % 256 ∷ []) (length bs) 0 (length-low_bytes bs))
low_bytes-get_or (b ∷ bs) (suc i) j h =
    byte_at-append_left (low_bytes bs) (b % 256 ∷ []) j (omega (arith, length-low_bytes bs))
    ∙ low_bytes-get_or bs i j (omega arith)

-- An ascending list is at most its last element.
pub IsAscending-last :
    (bs : List ℕ) (i last : ℕ)
    → IsAscending bs
    → last + 1 ≡ length bs
    → i ≤ last
    → get_or bs i 0 ≤ get_or bs last 0
IsAscending-last [] i last h e le = absurd (omega arith)
IsAscending-last (b ∷ bs) zero zero h e le = omega arith
IsAscending-last (b ∷ bs) zero (suc last) h e le = AllAtLeast-get_or b bs last h.0 (omega arith)
IsAscending-last (b ∷ bs) (suc i) zero h e le = absurd (omega arith)
IsAscending-last (b ∷ bs) (suc i) (suc last) h e le =
    IsAscending-last bs i last h.1 (omega arith) (omega arith)

pub IsAscending-next :
    (bs : List ℕ) (i : ℕ) → IsAscending bs → i + 1 < length bs → get_or bs i 0 ≤ get_or bs (i + 1) 0
IsAscending-next [] i h lt = absurd (omega arith)
IsAscending-next (b ∷ bs) zero h lt = AllAtLeast-get_or b bs 0 h.0 (omega arith)
IsAscending-next (b ∷ bs) (suc i) h lt =
    let e : suc i + 1 ≡ suc (i + 1) = omega arith in rw e (IsAscending-next bs i h.1 (omega arith))

pub trailer-parts :
    (head bs nulls : List ℕ) (jumps : ℕ)
    → head ++ (trailer jumps bs ++ nulls)
      ≡ (head ++ low_bytes bs) ++ (write_jumps jumps bs ++ (((length bs - 1) % 256 ∷ []) ++ nulls))
unfolding trailer
trailer-parts head bs nulls jumps =
    let low = low_bytes bs in
    let behind = write_jumps jumps bs in
    let count = (length bs - 1) % 256 ∷ [] in
    ap (λ t. head ++ t)
      (append_assoc low (behind ++ count) nulls
        ∙ ap (λ t. low ++ t) (append_assoc behind count nulls))
    ∙ sym (append_assoc head low (behind ++ (count ++ nulls)))

pub length-fields : (head bs : List ℕ) → length (head ++ low_bytes bs) ≡ length head + length bs
length-fields head bs =
    length-append head (low_bytes bs) ∙ ap (λ n. length head + n) (length-low_bytes bs)

pub jump_bytes-trailer :
    (layout : RowLayout) (head bs nulls : List ℕ)
    → layout.offsets_start ≡ length head
    → length bs ≡ layout.variable_count + 1
    → jump_bytes layout (head ++ (trailer layout.jumps bs ++ nulls)) ≡ write_jumps layout.jumps bs
unfolding jump_bytes slice
jump_bytes-trailer layout head bs nulls start count =
    let behind = write_jumps layout.jumps bs in
    let rest = ((length bs - 1) % 256 ∷ []) ++ nulls in
    let dropped =
      drop-append_whole (head ++ low_bytes bs) (behind ++ rest)
        (layout.offsets_start + layout.variable_count + 1) (omega (arith, length-fields head bs)) in
    rw (trailer-parts head bs nulls layout.jumps) (
      rw dropped
        (take-append_whole behind rest _ (omega (arith, length-write_jumps layout.jumps bs))))

pub low_byte-trailer :
    (head bs nulls : List ℕ) (jumps i j : ℕ)
    → i + j + 1 ≡ length bs
    → byte_at (head ++ (trailer jumps bs ++ nulls)) (length head + j) ≡ get_or bs i 0 % 256
unfolding trailer
low_byte-trailer head bs nulls jumps i j h =
    let low = low_bytes bs in
    let fits : j < length low = omega (arith, length-low_bytes bs) in
    byte_at-append_right head (trailer jumps bs ++ nulls) (length head) j refl
    ∙ byte_at-append_left (trailer jumps bs) nulls j (
        omega
          (arith, fits, length-append low (write_jumps jumps bs ++ ((length bs - 1) % 256 ∷ []))))
    ∙ byte_at-append_left low (write_jumps jumps bs ++ ((length bs - 1) % 256 ∷ [])) j fits
    ∙ low_bytes-get_or bs i j h

-- What the bytes of a row say of its layout.
pub boundary-trailer :
    (layout : RowLayout) (head bs nulls : List ℕ) (i : ℕ)
    → layout.offsets_start ≡ length head
    → length bs ≡ layout.variable_count + 1
    → layout.variable_count ≤ 255
    → IsAscending bs
    → get_or bs layout.variable_count 0 ≡ layout.offsets_start
    → layout.offsets_start < 256 * (layout.jumps + 1)
    → i ≤ layout.variable_count
    → boundary layout (head ++ (trailer layout.jumps bs ++ nulls)) i ≡ get_or bs i 0
unfolding boundary
boundary-trailer layout head bs nulls i start count few ascending last below le =
    elim (Bool-cases (i == 255)) [
      | inl whole ↦
          let same : i ≡ layout.variable_count = ground arith in
          rw whole (sym last ∙ ap (λ n. get_or bs n 0) (sym same))
      | inr inner ↦
          let small : i < 255 = ground arith in
          let low =
            low_byte-trailer head bs nulls layout.jumps i (layout.variable_count - i)
              (omega arith) in
          let high =
            jumps_before-write_jumps layout.jumps i bs ascending (omega arith) (omega arith)
              small in
          let most = IsAscending-last bs i layout.variable_count ascending (sym count) le in
          rw inner (
            rw (jump_bytes-trailer layout head bs nulls start count)
              (rw high (rw start (rw low (omega arith)))))
    ]
