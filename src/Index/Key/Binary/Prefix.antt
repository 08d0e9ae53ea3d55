-- ===== src/Index/Key/Binary/Prefix.antt =====
-- The check of prefixes accepts what the encoder writes: a whole component with anything behind it, and a
-- component that is cut.
use mathlib.Core.List.{append_assoc}
use jet3_rs.Common.{
  ℕ, zero, suc, ◌+◌, ◌-◌, ◌*◌, ◌/◌, ◌≤◌, ◌<◌, ◌≡◌, refl, sym, ap, ◌∙◌, arith, ltb, true, Bool-cases,
  some, List, [], ◌∷◌, ◌++◌, map, length, length-append, length-map, length-take, length-drop, take,
  drop, min, inl, inr,
}
use native.Mathlib.Decide.{dec_lt}
use jet3_rs.Common.Pieces.{drop-append_whole, take-append_part, take-append_more, drop-drop}
use jet3_rs.Index.Key.{IndexDirection, complete, partial}
use jet3_rs.Index.Key.Binary.{mask_of, prefix_from, prefix, encode, framed_maximum}
use jet3_rs.Index.Key.Binary.Blocks.{block, count, length-block}
use jet3_rs.Index.Key.Binary.Frame.{
  masked, tail_byte, framed_block, length-framed_block, frame, frame_rest, frame-blocks,
  encode-frame, masked-zero,
}
use jet3_rs.Index.Key.Binary.Loop.{whole_chunk_lem, cut_chunk_lem, cut_filling-any_other}
use jet3_rs.Index.Key.Binary.LastBlock.{tail-more, last_chunk-framed_block}

encode-fits :
    (value : List ℕ) (maximum : ℕ) (direction : IndexDirection) {component : List ℕ}
    → encode value maximum direction ≡ some component
    → length value ≤ maximum
unfolding encode
encode-fits value maximum direction e = ground arith

module _ (direction : IndexDirection) (key : List ℕ) (maximum : ℕ) where
  -- At a block with more of the value behind it the loop goes on behind the block.
  goes_on :
      (rounds offset consumed : ℕ) (xs rest : List ℕ)
      → drop offset key ≡ framed_block direction xs ++ rest
      → offset ≤ length key
      → consumed < maximum
      → ltb 8 (length xs) ≡ true
      → (prefix_from (suc rounds) key maximum (mask_of direction) offset consumed
          ≡ prefix_from rounds key maximum (mask_of direction) (offset + 9) (consumed + 8))
        × (drop (offset + 9) key ≡ rest)
        × (offset + 9 ≤ length key)
  goes_on rounds offset consumed xs rest at inside open_ more =
      let whole = length-framed_block direction xs in
      let round =
        whole_chunk_lem rounds key maximum (mask_of direction) offset consumed
          (framed_block direction xs) rest at whole inside open_ in
      (
        rw (rw more at (tail-more direction xs)) at round,
        drop-drop 9 offset key
            ∙ ap (drop 9) at
            ∙ drop-append_whole (framed_block direction xs) rest 9 whole,
        omega (
          arith,
          ap length at,
          length-drop {0} offset key,
          length-append {0} (framed_block direction xs) rest,
          whole,
        ),
      )

  -- From the frame of a value on, with anything behind it, the loop ends behind the frame.
  pub prefix_from-frame :
      (n rounds offset consumed : ℕ) (xs rest : List ℕ)
      → drop offset key ≡ frame direction n xs ++ rest
      → offset ≤ length key
      → 0 < length xs
      → length xs ≤ n
      → consumed + length xs ≤ maximum
      → maximum ≤ consumed + 8 * rounds
      → prefix_from rounds key maximum (mask_of direction) offset consumed
        ≡ some (complete (offset + length (frame direction n xs)))
  prefix_from-frame zero rounds offset consumed xs rest at inside present enough fits left =
      absurd (omega arith)
  prefix_from-frame (suc n) zero offset consumed xs rest at inside present enough fits left =
      absurd (omega arith)
  prefix_from-frame (suc n) (suc rounds) offset consumed xs rest at inside present enough fits
        left =
      let whole = length-framed_block direction xs in
      let at' : drop offset key ≡ framed_block direction xs ++ (frame_rest direction n xs ++ rest) =
        at
        ∙ ap (λ t. t ++ rest) (frame-blocks direction n xs)
        ∙ append_assoc (framed_block direction xs) (frame_rest direction n xs) rest in
      let size : length (frame direction (suc n) xs) ≡ 9 + length (frame_rest direction n xs) =
        omega (
          arith,
          ap length (frame-blocks direction n xs),
          length-append {0} (framed_block direction xs) (frame_rest direction n xs),
          whole,
        ) in
      elim (Bool-cases (ltb 8 (length xs))) [
        | inl more ↦
            let (round, behind, inside') =
              goes_on rounds offset consumed xs (frame_rest direction n xs ++ rest) at' inside
                (omega arith) more in
            let on =
              prefix_from-frame n rounds (offset + 9) (consumed + 8) (drop 8 xs) rest
                (rw more at behind) inside' (ground (arith, length-drop 8 xs))
                (ground (arith, length-drop 8 xs)) (ground (arith, length-drop 8 xs))
                (omega arith) in
            round ∙ on ∙ ap (λ l. some (complete l)) (omega (arith, rw more at size))
        | inr last ↦
            whole_chunk_lem rounds key maximum (mask_of direction) offset consumed
              (framed_block direction xs) (frame_rest direction n xs ++ rest) at' whole inside
              (omega arith)
            ∙ rw (rw last at (tail-more direction xs)) (
                last_chunk-framed_block direction (min (maximum - consumed) 8) offset xs present
                  (ground arith) (ground arith))
            ∙ ap (λ l. some (complete (offset + l))) (sym (rw last at size))
      ]

  -- From a frame on that the end of the key cuts, the loop finds a part of a component.
  pub prefix_from-cut_frame :
      (n rounds offset consumed j : ℕ) (xs : List ℕ)
      → drop offset key ≡ take j (frame direction n xs)
      → j < length (frame direction n xs)
      → offset ≤ length key
      → 0 < length xs
      → length xs ≤ n
      → consumed + length xs ≤ maximum
      → maximum ≤ consumed + 8 * rounds
      → prefix_from rounds key maximum (mask_of direction) offset consumed
        ≡ some (partial (framed_maximum maximum))
  prefix_from-cut_frame zero rounds offset consumed j xs at cut inside present enough fits left =
      absurd (omega arith)
  prefix_from-cut_frame (suc n) zero offset consumed j xs at cut inside present enough fits left =
      absurd (omega arith)
  prefix_from-cut_frame (suc n) (suc rounds) offset consumed j xs at cut inside present enough fits
        left =
      let whole = length-framed_block direction xs in
      let at' : drop offset key ≡ take j (framed_block direction xs ++ frame_rest direction n xs) =
        at ∙ ap (take j) (frame-blocks direction n xs) in
      let size : length (frame direction (suc n) xs) ≡ 9 + length (frame_rest direction n xs) =
        omega (
          arith,
          ap length (frame-blocks direction n xs),
          length-append {0} (framed_block direction xs) (frame_rest direction n xs),
          whole,
        ) in
      elim (dec_lt j 9) [
        | yes short ↦
            let values = map (masked direction) (block 8 xs) in
            let of_values = length-map (masked direction) (block 8 xs) ∙ length-block 8 xs in
            let chunk : drop offset key ≡ take j values =
              at'
              ∙ take-append_part (framed_block direction xs) (frame_rest direction n xs) j
                  (omega arith)
              ∙ take-append_part values (tail_byte direction (count 8 xs) ∷ []) j (omega arith) in
            let clean = rw (masked-zero direction) at (
              cut_filling-any_other (masked direction) 8 j (min (maximum - consumed) 8) xs
                (omega arith)) in
            cut_chunk_lem rounds key maximum (mask_of direction) offset consumed (take j values)
              chunk (omega (arith, length-take {0} j values)) inside (omega arith) clean
        | no long ↦ elim (Bool-cases (ltb 8 (length xs))) [
          | inl more ↦
              let at'' =
                at'
                ∙ take-append_more (framed_block direction xs) (frame_rest direction n xs) j
                    (omega arith) in
              let (round, behind, inside') =
                goes_on rounds offset consumed xs
                  (take (j - length (framed_block direction xs)) (frame_rest direction n xs)) at''
                  inside (omega arith) more in
              round
              ∙ prefix_from-cut_frame n rounds (offset + 9) (consumed + 8) (j - 9) (drop 8 xs)
                  (rw (more, whole) at behind) (omega (arith, rw more at size)) inside'
                  (ground (arith, length-drop 8 xs)) (ground (arith, length-drop 8 xs))
                  (ground (arith, length-drop 8 xs)) (omega arith)
          | inr last ↦ absurd (omega (arith, rw last at size))
        ]
      ]

-- What the encoder gives for a present value.
pub component-frame :
    (value : List ℕ) (maximum : ℕ) (direction : IndexDirection) {component : List ℕ}
    → 0 < length value
    → encode value maximum direction ≡ some component
    → (length value ≤ maximum)
      × (masked direction 0x7f ∷ frame direction (length value) value ≡ component)
component-frame value maximum direction present e =
    let fits = encode-fits value maximum direction e in
    (fits, cc (encode-frame value maximum direction present fits))

-- The component of a present value, with anything behind it, is recognised whole.
pub prefix-encode :
    (value rest : List ℕ) (maximum : ℕ) (direction : IndexDirection) {component : List ℕ}
    → 0 < length value
    → encode value maximum direction ≡ some component
    → prefix (component ++ rest) maximum direction ≡ some (complete (length component))
prefix-encode value rest maximum direction {component} present e =
    let (fits, framed) = component-frame value maximum direction present e in
    let found =
      prefix_from-frame direction
        ((masked direction 0x7f ∷ frame direction (length value) value) ++ rest) maximum
        (length value) maximum 1 0 value rest refl (omega arith) present (omega arith) (omega arith)
        (omega arith) in
    let size : 1 + length (frame direction (length value) value)
        ≡ length (masked direction 0x7f ∷ frame direction (length value) value) =
      omega arith in
    rw (← framed) (unfold prefix in rw (← size) found)

-- A part of it that holds the marker is recognised as a part.
pub prefix-cut_encode :
    (value : List ℕ) (k maximum : ℕ) (direction : IndexDirection) {component : List ℕ}
    → 0 < length value
    → encode value maximum direction ≡ some component
    → suc k < length component
    → prefix (take (suc k) component) maximum direction ≡ some (partial (framed_maximum maximum))
prefix-cut_encode value k maximum direction {component} present e cut =
    let (fits, framed) = component-frame value maximum direction present e in
    let cut' = rw (← framed) at cut in
    rw (← framed) (
      unfold prefix in
      prefix_from-cut_frame direction
        (take (suc k) (masked direction 0x7f ∷ frame direction (length value) value)) maximum
        (length value) maximum 1 0 k value refl (omega arith) (omega arith) present (omega arith)
        (omega arith) (omega arith))

-- The length of a component is at most what `framed_maximum` says.
length-frame :
    (direction : IndexDirection) (n : ℕ) (xs : List ℕ)
    → 0 < length xs
    → length xs ≤ n
    → length (frame direction n xs) ≡ 9 * ((length xs + 7) / 8)
length-frame direction zero xs present enough = absurd (omega arith)
length-frame direction (suc n) xs present enough =
    let blocks = ap length (frame-blocks direction n xs) in
    let sum = length-append (framed_block direction xs) (frame_rest direction n xs) in
    let whole = length-framed_block direction xs in
    elim (Bool-cases (ltb 8 (length xs))) [
      | inl more ↦
          let size = rw more at (blocks ∙ sum) in
          let rest =
            length-frame direction n (drop 8 xs) (ground (arith, length-drop 8 xs))
              (ground (arith, length-drop 8 xs)) in
          ground (arith, rest, size, length-drop 8 xs)
      | inr last ↦ let size = rw last at (blocks ∙ sum) in ground (arith, size)
    ]

pub length-encode :
    (value : List ℕ) (maximum : ℕ) (direction : IndexDirection) {component : List ℕ}
    → 0 < length value
    → encode value maximum direction ≡ some component
    → (10 ≤ length component) × (length component ≤ framed_maximum maximum)
length-encode value maximum direction {component} present e =
    let (fits, framed) = component-frame value maximum direction present e in
    let size = length-frame direction (length value) value present (omega arith) in
    rw (← framed) (omega arith, omega arith)
