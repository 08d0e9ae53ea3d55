-- ===== src/Alloc/Encoder/Bits.antt =====
-- What the encoders' updates do to the bits of a map.
use jet3_rs.Common.{
  ℕ, zero, suc, ◌+◌, ◌-◌, ◌*◌, ◌/◌, ◌%◌, ◌^◌, ◌≤◌, ◌<◌, ◌≡◌, refl, arith, ◌∙◌, ltb, ◌==◌,
  if◌then◌else◌, Bool, true, false, ◌&&◌, ◌⊎◌, inl, inr, List, [], ◌∷◌, length, copy_at,
  length-copy_at, get_or-copy_at_inside, get_or-copy_at_below, get_or-copy_at_above, ==_iff,
}
use native.Mathlib.Decide.{dec_lt}
use jet3_rs.Common.Bits.{passes_below, test_below}
use jet3_rs.Common.Ranges.{same_or_apart}
use jet3_rs.Common.Bytes.{AllBytes, byte_at, byte_at-lt}
use jet3_rs.Common.Results.{done, fail}
use jet3_rs.Alloc.Bitmap.Position.{bit_at}
use jet3_rs.Alloc.Encoder.{
  page_out_of_map, InlineUsageMapEncoder, update_inline, write_bit, bit_location, relative_page,
  page_count,
}

-- Bit `j` of a byte, and the value that a bit is given.
abbrev bit_value : Bool → ℕ
bit_value set = if set then 1 else 0

abbrev right_bit : Bool → ℕ → ℕ → ℕ → Bool
right_bit set v k j =
    write_bit v (2 ^ k) set / 2 ^ j % 2 == (if j == k then bit_value set else v / 2 ^ j % 2)

abbrev right_byte : Bool → ℕ → ℕ → Bool
right_byte set v k = passes_below (right_bit set v k) 8 && ltb (write_bit v (2 ^ k) set) 256

right_everywhere : (set : Bool) → passes_below (λ v. passes_below (right_byte set v) 8) 256 ≡ true
unfolding write_bit
right_everywhere true = refl
right_everywhere false = refl

right_here : (set : Bool) (v k : ℕ) → v < 256 → k < 8 → right_byte set v k ≡ true
right_here set v k lt at =
    test_below (right_byte set v) 8 k
      (test_below (λ v. passes_below (right_byte set v) 8) 256 v (right_everywhere set) lt) at

both_true : (a b : Bool) → (a && b) ≡ true → (a ≡ true) × (b ≡ true)
both_true true true e = (refl, refl)
both_true true false e = cc e
both_true false b e = cc e

write_bit-bit :
    (set : Bool) (v k j : ℕ)
    → v < 256
    → k < 8
    → j < 8
    → write_bit v (2 ^ k) set / 2 ^ j % 2 ≡ (if j == k then bit_value set else v / 2 ^ j % 2)
write_bit-bit set v k j lt at bit =
    (==_iff _ _).0
      (test_below (right_bit set v k) 8 j (both_true _ _ (right_here set v k lt at)).0 bit)

write_bit-lt : (set : Bool) (v k : ℕ) → v < 256 → k < 8 → write_bit v (2 ^ k) set < 256
write_bit-lt set v k lt at =
    let small = (both_true (passes_below (right_bit set v k) 8) _ (right_here set v k lt at)).1 in
    ground arith

-- The bitmap with one bit written.
abbrev pub with_bit : List ℕ → ℕ → Bool → List ℕ
with_bit bytes i set =
    copy_at bytes (i / 8) (write_bit (byte_at bytes (i / 8)) (2 ^ (i % 8)) set ∷ [])

copy_at-AllBytes :
    (xs : List ℕ) (at b : ℕ) → AllBytes xs → b < 256 → AllBytes (copy_at xs at (b ∷ []))
unfolding copy_at
copy_at-AllBytes [] at b h lt = tt
copy_at-AllBytes (x ∷ xs) (suc at) b h lt = (h.0, copy_at-AllBytes xs at b h.1 lt)
copy_at-AllBytes (x ∷ []) zero b h lt = (lt, h.1)
copy_at-AllBytes (x ∷ y ∷ xs) zero b h lt = (lt, h.1)

pub with_bit-AllBytes :
    (bytes : List ℕ) (i : ℕ) (set : Bool) → AllBytes bytes → AllBytes (with_bit bytes i set)
with_bit-AllBytes bytes i set h =
    copy_at-AllBytes bytes (i / 8) (write_bit (byte_at bytes (i / 8)) (2 ^ (i % 8)) set) h
      (write_bit-lt set (byte_at bytes (i / 8)) (i % 8) (byte_at-lt bytes (i / 8) h) (omega arith))

-- The written byte, and the others.
with_bit_same :
    (bytes : List ℕ) (i : ℕ) (set : Bool)
    → i < 8 * length bytes
    → byte_at (with_bit bytes i set) (i / 8) ≡ write_bit (byte_at bytes (i / 8)) (2 ^ (i % 8)) set
with_bit_same bytes i set inside =
    let e : i / 8 - i / 8 ≡ 0 = omega arith in
    let b = write_bit (byte_at bytes (i / 8)) (2 ^ (i % 8)) set in
    get_or-copy_at_inside bytes (i / 8) (b ∷ []) (i / 8) 0 (omega arith) (omega arith) (omega arith)
    ∙ rw e refl

with_bit_other :
    (bytes : List ℕ) (i at : ℕ) (set : Bool)
    → ¬ (at ≡ i / 8)
    → byte_at (with_bit bytes i set) at ≡ byte_at bytes at
with_bit_other bytes i at set apart =
    let b = write_bit (byte_at bytes (i / 8)) (2 ^ (i % 8)) set in
    elim (dec_lt at (i / 8)) [
      | yes p ↦ get_or-copy_at_below bytes (i / 8) (b ∷ []) at 0 p
      | no p ↦ get_or-copy_at_above bytes (i / 8) (b ∷ []) at 0 (omega arith)
    ]

pub with_bit-bit_at :
    (bytes : List ℕ) (i j : ℕ) (set : Bool)
    → AllBytes bytes
    → i < 8 * length bytes
    → bit_at (with_bit bytes i set) j ≡ (if j == i then bit_value set else bit_at bytes j)
with_bit-bit_at bytes i j set h inside = elim (same_or_apart (j / 8) (i / 8)) [
  | inl same ↦
      let here = with_bit_same bytes i set inside in
      let bit =
        write_bit-bit set (byte_at bytes (i / 8)) (i % 8) (j % 8) (byte_at-lt bytes (i / 8) h)
          (omega arith) (omega arith) in
      rw same (rw here (ground (arith, bit)))
  | inr apart ↦ rw (with_bit_other bytes i (j / 8) set apart) (ground arith)
]

module _ (page : ℕ) (set : Bool) (e : InlineUsageMapEncoder)
    (small : 8 * length e.bitmap < 2 ^ 64) where
  update_inside :
      e.start_page ≤ page
      → page < e.start_page + 8 * length e.bitmap
      → update_inline page set e
        ≡ done tt (record e { bitmap = with_bit e.bitmap (page - e.start_page) set })
  unfolding update_inline bit_location relative_page page_count
  update_inside lo hi = ground arith

  -- An inline map whose bitmap has less than 2^64 bits refuses a page outside the range of its
  -- bitmap, and stays as it was.
  pub update_inline_refused :
      (page < e.start_page) ⊎ (e.start_page + 8 * length e.bitmap ≤ page)
      → update_inline page set e ≡ fail (page_out_of_map page e.start_page (8 * length e.bitmap)) e
  unfolding update_inline bit_location relative_page page_count
  update_inline_refused outside = ground arith

  -- On an inline map of bytes whose bitmap has less than 2^64 bits, setting or clearing a page that
  -- the map represents succeeds. The bit of that page is then set, or clear; every other bit, the
  -- first page and the length of the bitmap are as they were, and the bitmap still consists of bytes.
  pub update_inline-bit_at :
      AllBytes e.bitmap
      → e.start_page ≤ page
      → page < e.start_page + 8 * length e.bitmap
      → (bits : List ℕ) × (update_inline page set e
          ≡ done tt (record { start_page = e.start_page; bitmap = bits }))
        × (length bits ≡ length e.bitmap)
        × AllBytes bits
        × ((j : ℕ)
            → bit_at bits j
              ≡ (if e.start_page + j == page then bit_value set else bit_at e.bitmap j))
  update_inline-bit_at h lo hi = (
    with_bit e.bitmap (page - e.start_page) set,
    update_inside lo hi,
    length-copy_at e.bitmap _ _,
    with_bit-AllBytes e.bitmap (page - e.start_page) set h,
    λ j. ground (arith, with_bit-bit_at e.bitmap (page - e.start_page) j set h (omega arith)),
  )
