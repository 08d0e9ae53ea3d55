-- ===== src/Row/Layout/Trailer/Jumps.antt =====
-- crates/jet3/src/row/writer.rs and reader_layout.rs: the jump bytes of ascending boundaries.
use jet3_rs.Common.{
  ℕ, zero, suc, ◌+◌, ◌*◌, ◌/◌, ◌%◌, ◌≤◌, ◌<◌, ◌≡◌, refl, ap, arith, leb, ◌==◌, if◌then◌else◌, false,
  not, ◌&&◌, Bool-cases, Option, none, some, List, [], ◌∷◌, length, get_or, inl, inr, min,
}
use jet3_rs.Row.Layout.{jumps_before}
use jet3_rs.Row.Layout.Trailer.{position_from, ordinal_byte, jump_byte, write_jumps}

-- All numbers of the list are at least `b`; each number is at most those behind it.
abbrev pub AllAtLeast : ℕ → List ℕ → Type 0
AllAtLeast b [] = Unit {0}
AllAtLeast b (x ∷ xs) = (b ≤ x) × AllAtLeast b xs

abbrev pub IsAscending : List ℕ → Type 0
IsAscending [] = Unit {0}
IsAscending (b ∷ bs) = AllAtLeast b bs × IsAscending bs

pub AllAtLeast-get_or :
    (b : ℕ) (bs : List ℕ) (i : ℕ) → AllAtLeast b bs → i < length bs → b ≤ get_or bs i 0
AllAtLeast-get_or b [] i h lt = absurd (omega arith)
AllAtLeast-get_or b (x ∷ xs) zero h lt = h.0
AllAtLeast-get_or b (x ∷ xs) (suc i) h lt = AllAtLeast-get_or b xs i h.1 (omega arith)

-- The first boundary from the threshold on is at or before `i` exactly if boundary `i` is from it on.
Found : Option ℕ → (ordinal threshold i value count : ℕ) → Type 0
Found none ordinal threshold i value count = value < threshold
Found (some p) ordinal threshold i value count =
    (ordinal ≤ p) × (p < ordinal + count) × (leb p (ordinal + i) ≡ leb threshold value)

IsWithin : Option ℕ → (low high : ℕ) → Type 0
IsWithin none low high = Unit {0}
IsWithin (some p) low high = (low ≤ p) × (p < high)

weaken-IsWithin :
    (o : Option ℕ) (low high : ℕ)
    → IsWithin o (low + 1) (low + 1 + high)
    → IsWithin o low (low + suc high)
unfolding IsWithin
weaken-IsWithin none low high h = tt
weaken-IsWithin (some p) low high h = let a = h.0 in let b = h.1 in (omega arith, omega arith)

position_from-IsWithin :
    (ordinal threshold : ℕ) (bs : List ℕ)
    → IsWithin (position_from ordinal threshold bs) ordinal (ordinal + length bs)
unfolding position_from IsWithin
position_from-IsWithin ordinal threshold [] = tt
position_from-IsWithin ordinal threshold (b ∷ bs) = elim (Bool-cases (leb threshold b)) [
  | inl reached ↦ rw reached (omega arith, omega arith)
  | inr below ↦ rw below (
      weaken-IsWithin (position_from (ordinal + 1) threshold bs) ordinal (length bs)
        (position_from-IsWithin (ordinal + 1) threshold bs))
]

later-Found :
    (o : Option ℕ) (ordinal threshold b count : ℕ)
    → leb threshold b ≡ false
    → IsWithin o (ordinal + 1) (ordinal + 1 + count)
    → Found o ordinal threshold 0 b (suc count)
unfolding Found IsWithin
later-Found none ordinal threshold b count below h = ground arith
later-Found (some p) ordinal threshold b count below h =
    let first = h.0 in let last = h.1 in (omega arith, omega arith, ground arith)

shifted-Found :
    (o : Option ℕ) (ordinal threshold i value count : ℕ)
    → Found o (ordinal + 1) threshold i value count
    → Found o ordinal threshold (suc i) value (suc count)
unfolding Found
shifted-Found none ordinal threshold i value count h = h
shifted-Found (some p) ordinal threshold i value count h =
    let first = h.0 in let last = h.1 in let same = h.2 in (omega arith, omega arith, ground arith)

position_from-Found :
    (ordinal threshold i : ℕ) (bs : List ℕ)
    → IsAscending bs
    → i < length bs
    → Found (position_from ordinal threshold bs) ordinal threshold i (get_or bs i 0) (length bs)
unfolding position_from Found
position_from-Found ordinal threshold i [] h lt = absurd (omega arith)
position_from-Found ordinal threshold zero (b ∷ bs) h lt = elim (Bool-cases (leb threshold b)) [
  | inl reached ↦ rw reached (omega arith, omega arith, ground arith)
  | inr below ↦ rw below (
      later-Found (position_from (ordinal + 1) threshold bs) ordinal threshold b (length bs) below
        (position_from-IsWithin (ordinal + 1) threshold bs))
]
position_from-Found ordinal threshold (suc i) (b ∷ bs) h lt =
    let behind = AllAtLeast-get_or b bs i h.0 (omega arith) in
    elim (Bool-cases (leb threshold b)) [
      | inl reached ↦ rw reached (omega arith, omega arith, ground arith)
      | inr below ↦ rw below (
          shifted-Found (position_from (ordinal + 1) threshold bs) ordinal threshold i
            (get_or bs i 0) (length bs)
            (position_from-Found (ordinal + 1) threshold i bs h.1 (omega arith)))
    ]

counted :
    (o : Option ℕ) (threshold i value count : ℕ)
    → i < 255
    → count ≤ 256
    → Found o 0 threshold i value count
    → (not (ordinal_byte o == 0xff) && leb (ordinal_byte o) i) ≡ leb threshold value
unfolding Found
counted none threshold i value count small few h = ground arith
counted (some p) threshold i value count small few h =
    let last = h.1 in
    let same = h.2 in let whole : p % 256 ≡ p = omega arith in rw whole (ground arith)

-- The jump byte of a block counts at `i` exactly if boundary `i` is from the block on.
jump_byte_lem :
    (block i : ℕ) (bs : List ℕ)
    → IsAscending bs
    → length bs ≤ 256
    → i < length bs
    → i < 255
    → (not (jump_byte block bs == 0xff) && leb (jump_byte block bs) i)
      ≡ leb (256 * block) (get_or bs i 0)
unfolding jump_byte
jump_byte_lem block i bs h few lt small =
    counted (position_from 0 (256 * block) bs) (256 * block) i (get_or bs i 0) (length bs) small few
      (position_from-Found 0 (256 * block) i bs h lt)

one_more :
    (jumps value : ℕ)
    → (if leb (256 * suc jumps) value then 1 else 0) + min jumps (value / 256)
      ≡ min (suc jumps) (value / 256)
one_more jumps value = elim (Bool-cases (leb (256 * suc jumps) value)) [
  | inl reached ↦ ground arith
  | inr below ↦ ground arith
]

-- The jump bytes that count at `i` are as many as the whole blocks before boundary `i`.
pub jumps_before-write_jumps :
    (jumps i : ℕ) (bs : List ℕ)
    → IsAscending bs
    → length bs ≤ 256
    → i < length bs
    → i < 255
    → jumps_before i (write_jumps jumps bs) ≡ min jumps (get_or bs i 0 / 256)
unfolding jumps_before write_jumps
jumps_before-write_jumps zero i bs h few lt small = omega arith
jumps_before-write_jumps (suc jumps) i bs h few lt small =
    rw (jump_byte_lem (suc jumps) i bs h few lt small)
      (rw (jumps_before-write_jumps jumps i bs h few lt small) (one_more jumps (get_or bs i 0)))

pub length-write_jumps : (jumps : ℕ) (bs : List ℕ) → length (write_jumps jumps bs) ≡ jumps
unfolding write_jumps
length-write_jumps zero bs = refl
length-write_jumps (suc jumps) bs = ap suc (length-write_jumps jumps bs)
