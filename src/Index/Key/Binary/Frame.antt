-- ===== src/Index/Key/Binary/Frame.antt =====
-- The chunks that the loop of `encode` writes, as blocks of a list of bytes.
use mathlib.Core.List.{append_assoc}
use jet3_rs.Common.{
  ℕ, zero, suc, ◌+◌, ◌-◌, ◌*◌, ◌≤◌, ◌<◌, ◌≡◌, refl, sym, ap, ap₂, ◌∙◌, arith, ltb, ltb→lt, ◌==◌,
  if◌then◌else◌, Bool-cases, inl, inr, some, List, [], ◌∷◌, ◌++◌, map, length, length-append,
  length-map, length-take, length-drop, take, drop, replicate, bit_xor,
}
use jet3_rs.Common.Pieces.{take-nil, drop-short}
use jet3_rs.Index.Key.{IndexDirection, ascending, descending}
use jet3_rs.Index.Key.Binary.{mask_of, chunks, frame_chunk, frame_chunks, encode}
use jet3_rs.Index.Key.Binary.Blocks.{block, count, length-block}

-- A byte of the value in the output, and the byte behind a block.
abbrev pub masked : IndexDirection → ℕ → ℕ
masked direction b = bit_xor b (mask_of direction)

abbrev pub tail_byte : IndexDirection → ℕ → ℕ
tail_byte direction c = if c == 9 then 9 else masked direction c

-- One block with the byte behind it.
abbrev pub framed_block : IndexDirection → List ℕ → List ℕ
framed_block direction xs =
    map (masked direction) (block 8 xs) ++ (tail_byte direction (count 8 xs) ∷ [])

pub length-framed_block :
    (direction : IndexDirection) (xs : List ℕ) → length (framed_block direction xs) ≡ 9
length-framed_block direction xs =
    let whole = length-map (masked direction) (block 8 xs) in
    omega (
      arith,
      length-append {0} (map (masked direction) (block 8 xs))
          (tail_byte direction (count 8 xs) ∷ []),
      whole,
      length-block 8 xs,
    )

unfoldable pub frame : IndexDirection → ℕ → List ℕ → List ℕ
frame direction zero xs = []
frame direction (suc n) xs =
    let rest = frame direction n (drop 8 xs) in
    map (masked direction) (block 8 xs)
    ++ (tail_byte direction (count 8 xs) ∷ (if ltb 8 (length xs) then rest else []))

pub masked-zero : (direction : IndexDirection) → masked direction 0 ≡ mask_of direction
masked-zero ascending = refl
masked-zero descending = refl

map-block :
    (f : ℕ → ℕ) (k : ℕ) (xs : List ℕ)
    → map f (take k xs) ++ replicate (k - length (take k xs)) (f 0) ≡ map f (block k xs)
map-block f zero xs = refl
map-block f (suc k) [] =
    let e : suc k - 0 ≡ suc (k - 0) = omega arith in
    let none_of : take {A = ℕ} k [] ≡ [] = take-nil k in
    rw e (ap (λ t. f 0 ∷ t) (rw none_of at (map-block f k [])))
map-block f (suc k) (x ∷ xs) =
    let e : suc k - suc (length (take k xs)) ≡ k - length (take k xs) = omega arith in
    rw e (ap (λ t. f x ∷ t) (map-block f k xs))

-- The byte behind the chunk says whether the value goes on.
tail-frame_chunk :
    (direction : IndexDirection) (ordinal : ℕ) (xs : List ℕ)
    → (if ltb ((ordinal + 1) * 8) (ordinal * 8 + length xs)
        then 9
        else bit_xor (length (take 8 xs)) (mask_of direction))
      ≡ tail_byte direction (count 8 xs)
tail-frame_chunk direction ordinal xs = let e = length-take 8 xs in rw e (ground arith)

frame_chunk-block :
    (direction : IndexDirection) (ordinal : ℕ) (xs : List ℕ)
    → frame_chunk (mask_of direction) (ordinal * 8 + length xs) ordinal (take 8 xs)
      ≡ map (masked direction) (block 8 xs) ++ (tail_byte direction (count 8 xs) ∷ [])
unfolding frame_chunk
frame_chunk-block direction ordinal xs =
    let padded = rw (masked-zero direction) at (map-block (masked direction) 8 xs) in
    ap₂ (λ a b. a ++ (b ∷ [])) padded (tail-frame_chunk direction ordinal xs)

no_chunks : (mask total ordinal n : ℕ) → frame_chunks mask total ordinal (chunks n []) ≡ []
unfolding frame_chunks chunks
no_chunks mask total ordinal zero = refl
no_chunks mask total ordinal (suc n) = refl

pub frame_chunks-frame :
    (direction : IndexDirection) (n ordinal total : ℕ) (xs : List ℕ)
    → 0 < length xs
    → length xs ≤ n
    → total ≡ ordinal * 8 + length xs
    → frame_chunks (mask_of direction) total ordinal (chunks n xs) ≡ frame direction n xs
unfolding frame_chunks chunks frame
frame_chunks-frame direction zero ordinal total xs present enough e = absurd (omega arith)
frame_chunks-frame direction (suc n) ordinal total [] present enough e = absurd (omega arith)
frame_chunks-frame direction (suc n) ordinal total (x ∷ xs) present enough e =
    let first = rw (← e) at (frame_chunk-block direction ordinal (x ∷ xs)) in
    let mask = mask_of direction in
    elim (Bool-cases (ltb 8 (length (x ∷ xs)))) [
      | inl more ↦
          let rest =
            frame_chunks-frame direction n (ordinal + 1) total (drop 8 (x ∷ xs))
              (omega (arith, length-drop 8 (x ∷ xs), ltb→lt 8 (length (x ∷ xs)) more))
              (omega (arith, length-drop 8 (x ∷ xs)))
              (omega (arith, length-drop 8 (x ∷ xs), ltb→lt 8 (length (x ∷ xs)) more)) in
          rw more (
            ap₂ ◌++◌ first rest
            ∙ append_assoc (map (masked direction) (block 8 (x ∷ xs)))
                (tail_byte direction (count 8 (x ∷ xs)) ∷ []) (frame direction n (drop 8 (x ∷ xs))))
      | inr last ↦
          let gone = drop-short 8 (x ∷ xs) (ground arith) in
          rw last (
            ap₂ ◌++◌ first (
              ap (λ t. frame_chunks mask total (ordinal + 1) (chunks n t)) gone
              ∙ no_chunks mask total (ordinal + 1) n)
            ∙ append_assoc (map (masked direction) (block 8 (x ∷ xs)))
                (tail_byte direction (count 8 (x ∷ xs)) ∷ []) [])
    ]

-- A present value is encoded as the marker and its frame.
pub encode-frame :
    (value : List ℕ) (maximum : ℕ) (direction : IndexDirection)
    → 0 < length value
    → length value ≤ maximum
    → encode value maximum direction
      ≡ some (masked direction 0x7f ∷ frame direction (length value) value)
unfolding encode
encode-frame value maximum direction present fits =
    let framed =
      frame_chunks-frame direction (length value) 0 (length value) value present (omega arith)
        (omega arith) in
    rw framed (ground arith)

-- A frame is its first block and the frame of the rest, if there is one.
abbrev pub frame_rest : IndexDirection → ℕ → List ℕ → List ℕ
frame_rest direction n xs = if ltb 8 (length xs) then frame direction n (drop 8 xs) else []

pub frame-blocks :
    (direction : IndexDirection) (n : ℕ) (xs : List ℕ)
    → frame direction (suc n) xs ≡ framed_block direction xs ++ frame_rest direction n xs
unfolding frame
frame-blocks direction n xs = sym (
    append_assoc (map (masked direction) (block 8 xs)) (tail_byte direction (count 8 xs) ∷ [])
      (frame_rest direction n xs))
