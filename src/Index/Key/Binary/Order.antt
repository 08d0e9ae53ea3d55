-- ===== src/Index/Key/Binary/Order.antt =====
-- The frames of two values are ordered as the values, byte by byte, in both directions.
use jet3_rs.Common.{
  ℕ, zero, suc, ◌≤◌, ◌<◌, ◌≡◌, refl, sym, ap, ◌∙◌, arith, ltb, some, if◌then◌else◌, true, false,
  Bool-cases, ◌⊎◌, ◌↔◌, inl, inr, List, [], ◌∷◌, map, length, length-map, length-drop, drop,
}
use jet3_rs.Common.Bytes.{AllBytes}
use jet3_rs.Common.Pieces.{drop-short}
use jet3_rs.Index.Order.{Before, Before-irrefl, Before-append}
use jet3_rs.Index.Key.{IndexDirection, ascending, descending}
use jet3_rs.Index.Key.Binary.{mask_of, encode}
use jet3_rs.Index.Key.Binary.Blocks.{block, count, length-block, Before-block}
use jet3_rs.Index.Key.Binary.Frame.{masked, tail_byte, frame, encode-frame}
use jet3_rs.Index.Key.Binary.Masked.{
  InOrder, block-AllBytes, drop-AllBytes, map-masked_inj, masked-order, CountsInOrder,
  tail_byte-order,
}

-- What decides between two lists in the order of the direction.
InOrder-block :
    (direction : IndexDirection) (xs ys : List ℕ)
    → InOrder direction xs ys ↔ (
        InOrder direction (block 8 xs) (block 8 ys)
        ⊎ ((block 8 xs ≡ block 8 ys)
            × (CountsInOrder direction (count 8 xs) (count 8 ys)
                ⊎ ((count 8 xs ≡ count 8 ys) × InOrder direction (drop 8 xs) (drop 8 ys)))))
InOrder-block ascending xs ys = Before-block 8 xs ys
InOrder-block descending xs ys =
    let turned = Before-block 8 ys xs in
    (
      λ p. elim (turned.0 p) [
        | inl q ↦ inl q
        | inr (same, inl q) ↦ inr (sym same, inl q)
        | inr (same, inr (e, q)) ↦ inr (sym same, inr (sym e, q))
      ],
      λ p. turned.1 (elim p [
        | inl q ↦ inl q
        | inr (same, inl q) ↦ inr (sym same, inl q)
        | inr (same, inr (e, q)) ↦ inr (sym same, inr (sym e, q))
      ]),
    )

-- The rests of two frames whose counts are equal.
abbrev RestOrder : IndexDirection → ℕ → ℕ → List ℕ → List ℕ → Type 0
RestOrder direction n m xs ys =
    Before (if ltb 8 (length xs) then frame direction n (drop 8 xs) else [])
      (if ltb 8 (length ys) then frame direction m (drop 8 ys) else [])
    ↔ InOrder direction (drop 8 xs) (drop 8 ys)

frame_step-order :
    (direction : IndexDirection) (n m : ℕ) (xs ys : List ℕ)
    → AllBytes xs
    → AllBytes ys
    → (count 8 xs ≡ count 8 ys → RestOrder direction n m xs ys)
    → Before (frame direction (suc n) xs) (frame direction (suc m) ys) ↔ InOrder direction xs ys
unfolding frame
frame_step-order direction n m xs ys hx hy rests =
    let bx = block-AllBytes 8 xs hx in
    let by = block-AllBytes 8 ys hy in
    let lengths = length-block 8 xs ∙ sym (length-block 8 ys) in
    let parts =
      Before-append (map (masked direction) (block 8 xs)) (map (masked direction) (block 8 ys))
        (tail_byte direction (count 8 xs)
          ∷ (if ltb 8 (length xs) then frame direction n (drop 8 xs) else []))
        (tail_byte direction (count 8 ys)
          ∷ (if ltb 8 (length ys) then frame direction m (drop 8 ys) else []))
        (length-map (masked direction) (block 8 xs)
          ∙ lengths
          ∙ sym (length-map (masked direction) (block 8 ys))) in
    let blocks = masked-order direction (block 8 xs) (block 8 ys) lengths bx by in
    let same = map-masked_inj direction (block 8 xs) (block 8 ys) bx by in
    let tails = tail_byte-order direction (count 8 xs) (count 8 ys) (omega arith) (omega arith) in
    let decided = InOrder-block direction xs ys in
    (
      λ p. decided.1 (elim (parts.0 p) [
        | inl q ↦ inl (blocks.0 q)
        | inr (e, inl q) ↦ inr (same e, inl (tails.0.0 q))
        | inr (e, inr (f, q)) ↦ let c = tails.1.0 f in inr (same e, inr (c, (rests c).0 q))
      ]),
      λ p. parts.1 (elim (decided.0 p) [
        | inl q ↦ inl (blocks.1 q)
        | inr (e, inl q) ↦ inr (ap (map (masked direction)) e, inl (tails.0.1 q))
        | inr (e, inr (c, q)) ↦
            inr (ap (map (masked direction)) e, inr (ap (tail_byte direction) c, (rests c).1 q))
      ]),
    )

InOrder-nil : (direction : IndexDirection) → ¬ InOrder direction [] []
InOrder-nil ascending p = p
InOrder-nil descending p = p

pub frame-order :
    (direction : IndexDirection) (n m : ℕ) (xs ys : List ℕ)
    → AllBytes xs
    → AllBytes ys
    → 0 < length xs
    → 0 < length ys
    → length xs ≤ n
    → length ys ≤ m
    → Before (frame direction n xs) (frame direction m ys) ↔ InOrder direction xs ys
frame-order direction zero m xs ys hx hy px py hn hm = absurd (omega arith)
frame-order direction (suc n) zero xs ys hx hy px py hn hm = absurd (omega arith)
frame-order direction (suc n) (suc m) xs ys hx hy px py hn hm =
    let short = λ (zs : List ℕ) (h : ltb 8 (length zs) ≡ false). drop-short 8 zs (ground arith) in
    frame_step-order direction n m xs ys hx hy λ e. elim (Bool-cases (ltb 8 (length xs))) [
      | inl more ↦
          let more' : ltb 8 (length ys) ≡ true = ground arith in
          rw (more, more')
            (frame-order direction n m (drop 8 xs) (drop 8 ys) (drop-AllBytes 8 xs hx)
              (drop-AllBytes 8 ys hy) (ground (arith, length-drop 8 xs))
              (ground (arith, length-drop 8 ys)) (ground (arith, length-drop 8 xs))
              (ground (arith, length-drop 8 ys)))
      | inr last ↦
          let last' : ltb 8 (length ys) ≡ false = ground arith in
          rw (last, last', short xs last, short ys last')
            (λ p. absurd p, λ p. absurd (InOrder-nil direction p))
    ]

pub marked-order :
    (direction : IndexDirection) (a b : List ℕ)
    → AllBytes a
    → AllBytes b
    → 0 < length a
    → 0 < length b
    → Before
        (masked direction 0x7f ∷ frame direction (length a) a)
        (masked direction 0x7f ∷ frame direction (length b) b)
      ↔ InOrder direction a b
marked-order direction a b ha hb pa pb =
    let frames =
      frame-order direction (length a) (length b) a b ha hb pa pb (omega arith) (omega arith) in
    (
      λ p. elim p [ inl q ↦ absurd (omega arith) | inr q ↦ frames.0 q.1 ],
      λ p. inr (refl, frames.1 p),
    )

-- What `encode` gives for a value.
abbrev binary_key : IndexDirection → List ℕ → List ℕ
binary_key direction [] = mask_of direction ∷ []
binary_key direction (x ∷ xs) = masked direction 0x7f ∷ frame direction (length (x ∷ xs)) (x ∷ xs)

encode-binary_key :
    (value : List ℕ) (maximum : ℕ) (direction : IndexDirection) {key : List ℕ}
    → encode value maximum direction ≡ some key
    → binary_key direction value ≡ key
unfolding encode
encode-binary_key [] maximum direction e = ground arith
encode-binary_key (x ∷ xs) maximum direction {key} e =
    let fits : length (x ∷ xs) ≤ maximum = ground arith in
    cc (encode-frame (x ∷ xs) maximum direction (omega arith) fits)

binary_key-order :
    (direction : IndexDirection) (a b : List ℕ)
    → AllBytes a
    → AllBytes b
    → Before (binary_key direction a) (binary_key direction b) ↔ InOrder direction a b
binary_key-order ascending [] [] ha hb = (λ p. absurd (Before-irrefl (0 ∷ []) p), λ p. absurd p)
binary_key-order descending [] [] ha hb = (λ p. absurd (Before-irrefl (0xff ∷ []) p), λ p. absurd p)
binary_key-order ascending [] (y ∷ ys) ha hb = (λ p. tt, λ p. inl (omega arith))
binary_key-order descending [] (y ∷ ys) ha hb = (λ p. ground arith, λ p. absurd p)
binary_key-order ascending (x ∷ xs) [] ha hb = (λ p. ground arith, λ p. absurd p)
binary_key-order descending (x ∷ xs) [] ha hb = (λ p. tt, λ p. inl (omega arith))
binary_key-order direction (x ∷ xs) (y ∷ ys) ha hb =
    marked-order direction (x ∷ xs) (y ∷ ys) ha hb (omega arith) (omega arith)

-- The components of two binary values compare, byte by byte, as the values do in the index's direction:
-- a value comes before those that it is the start of, and the empty value before all others.
pub encode-order :
    (direction : IndexDirection) (maximum : ℕ) (a b key_a key_b : List ℕ)
    → AllBytes a
    → AllBytes b
    → encode a maximum direction ≡ some key_a
    → encode b maximum direction ≡ some key_b
    → Before key_a key_b ↔ InOrder direction a b
encode-order direction maximum a b key_a key_b ha hb ea eb =
    rw (← encode-binary_key a maximum direction ea)
      (rw (← encode-binary_key b maximum direction eb) (binary_key-order direction a b ha hb))
