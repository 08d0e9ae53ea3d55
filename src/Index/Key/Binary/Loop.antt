-- ===== src/Index/Key/Binary/Loop.antt =====
-- One round of the loop of `prefix`, at a whole chunk of nine bytes and at a cut one.
use jet3_rs.Common.{
  ℕ, zero, suc, ◌+◌, ◌-◌, ◌≤◌, ◌<◌, ◌≡◌, refl, ap, ◌∙◌, arith, ◌==◌, if◌then◌else◌, false, some,
  List, [], ◌∷◌, ◌++◌, map, length, take, drop, min,
}
use jet3_rs.Common.Bytes.{byte_at}
use jet3_rs.Common.Pieces.{take-append_whole, take-short}
use jet3_rs.Index.Key.{partial}
use jet3_rs.Index.Key.Binary.{any_other, cut_chunk, last_chunk, prefix_from, framed_maximum}
use jet3_rs.Index.Key.Binary.Blocks.{block}

module _ (f : ℕ → ℕ) where
  -- Behind the bytes of the value a block holds nothing but filling.
  zeros-any_other :
      (k n : ℕ) (t : List ℕ) → n ≤ k → any_other (f 0) (take n (map f (block k []) ++ t)) ≡ false
  zeros-any_other k zero t h = refl
  zeros-any_other zero (suc n) t h = absurd (omega arith)
  zeros-any_other (suc k) (suc n) t h = ground (arith, zeros-any_other k n t)

  pub filling-any_other :
      (k : ℕ) (xs t : List ℕ)
      → length xs ≤ k
      → any_other (f 0) (take (k - length xs) (drop (length xs) (map f (block k xs) ++ t))) ≡ false
  filling-any_other k [] t h = zeros-any_other k (k - 0) t (omega arith)
  filling-any_other zero (x ∷ xs) t h = absurd (omega arith)
  filling-any_other (suc k) (x ∷ xs) t h =
      let e : suc k - suc (length xs) ≡ k - length xs = omega arith in
      rw e (filling-any_other k xs t (omega arith))

  zeros_cut-any_other : (k n a : ℕ) → any_other (f 0) (drop a (take n (map f (block k [])))) ≡ false
  zeros_cut-any_other zero zero zero = refl
  zeros_cut-any_other zero zero (suc a) = refl
  zeros_cut-any_other zero (suc n) zero = refl
  zeros_cut-any_other zero (suc n) (suc a) = refl
  zeros_cut-any_other (suc k) zero zero = refl
  zeros_cut-any_other (suc k) zero (suc a) = refl
  zeros_cut-any_other (suc k) (suc n) zero = ground (arith, zeros_cut-any_other k n 0)
  zeros_cut-any_other (suc k) (suc n) (suc a) = zeros_cut-any_other k n a

  pub cut_filling-any_other :
      (k n a : ℕ) (xs : List ℕ)
      → min (length xs) k ≤ a
      → any_other (f 0) (drop a (take n (map f (block k xs)))) ≡ false
  cut_filling-any_other k n a [] h = zeros_cut-any_other k n a
  cut_filling-any_other zero zero zero (x ∷ xs) h = refl
  cut_filling-any_other zero zero (suc a) (x ∷ xs) h = refl
  cut_filling-any_other zero (suc n) zero (x ∷ xs) h = refl
  cut_filling-any_other zero (suc n) (suc a) (x ∷ xs) h = refl
  cut_filling-any_other (suc k) n zero (x ∷ xs) h = absurd (omega arith)
  cut_filling-any_other (suc k) zero (suc a) (x ∷ xs) h = refl
  cut_filling-any_other (suc k) (suc n) (suc a) (x ∷ xs) h =
      cut_filling-any_other k n a xs (omega arith)

module _ (rounds : ℕ) (key : List ℕ) (maximum mask offset consumed : ℕ) where
  -- At a whole chunk the loop goes on or ends with the chunk.
  pub whole_chunk_lem :
      (chunk rest : List ℕ)
      → drop offset key ≡ chunk ++ rest
      → length chunk ≡ 9
      → offset ≤ length key
      → consumed < maximum
      → prefix_from (suc rounds) key maximum mask offset consumed ≡ (
          if byte_at chunk 8 == 9
          then prefix_from rounds key maximum mask (offset + 9) (consumed + 8)
          else last_chunk mask (min (maximum - consumed) 8) offset chunk)
  unfolding prefix_from
  whole_chunk_lem chunk rest at whole inside more =
      let e : take 9 (drop offset key) ≡ chunk =
        ap (take 9) at ∙ take-append_whole chunk rest 9 whole in
      rw e (ground arith)

  -- At less than nine bytes the loop ends with the cut chunk.
  pub cut_chunk_lem :
      (chunk : List ℕ)
      → drop offset key ≡ chunk
      → length chunk < 9
      → offset ≤ length key
      → consumed < maximum
      → any_other mask (drop (min (maximum - consumed) 8) chunk) ≡ false
      → prefix_from (suc rounds) key maximum mask offset consumed
        ≡ some (partial (framed_maximum maximum))
  unfolding prefix_from cut_chunk
  cut_chunk_lem chunk at cut inside more clean =
      let e : take 9 (drop offset key) ≡ chunk =
        ap (take 9) at ∙ take-short 9 chunk (omega arith) in
      rw e (ground arith)
