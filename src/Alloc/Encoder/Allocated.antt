-- ===== src/Alloc/Encoder/Allocated.antt =====
-- The pages that are set in a new inline map are those that an iteration of the map returns.
use jet3_rs.Common.{
  ℕ, zero, suc, ◌+◌, ◌*◌, ◌/◌, ◌^◌, ◌≤◌, ◌<◌, ◌≡◌, refl, arith, List, [], ◌∷◌, length, map,
  replicate, length-replicate, Bool, true, false, ◌||◌, ◌==◌, if◌then◌else◌, ◌∙◌, ap,
}
use mathlib.Core.Path.{subst}
use jet3_rs.Common.Bytes.{AllBytes, replicate-AllBytes, byte_at}
use jet3_rs.Common.Results.{done, Op, return, ◌>>◌}
use jet3_rs.Format.Geometry.{PageNumber, PageGeometry}
use jet3_rs.Format.Offset.{ByteCount}
use jet3_rs.Format.Resource.{ResourceBudget}
use jet3_rs.Format.Resource.Charges.{items, allocation, charge}
use jet3_rs.Format.Resource.Accounting.{Fits, HasU64Limits, spend, charge-Fits}
use jet3_rs.Alloc.Bitmap.Position.{bit_at, bit_count, standing_at}
use jet3_rs.Alloc.Bitmap.Scan.{charged}
use jet3_rs.Alloc.Bitmap.Drain.{set_bits}
use jet3_rs.Alloc.Map.{InlineAllocatedPages, allocated_pages}
use jet3_rs.Alloc.Map.Pages.{drain_pages, drain_pages-set_bits}
use jet3_rs.Alloc.Encoder.{InlineUsageMapEncoder, UsageMapWriteError, new_inline, set_page}
use jet3_rs.Alloc.Encoder.Bits.{update_inline-bit_at}

-- `set_page` of some pages, one by one.
unfoldable pub set_pages : List PageNumber → Op UsageMapWriteError InlineUsageMapEncoder (Unit {0})
set_pages [] = return tt
set_pages (page ∷ pages) = set_page page >> set_pages pages

abbrev pub has_page : List PageNumber → PageNumber → Bool
has_page [] page = false
has_page (p ∷ pages) page = (page == p) || has_page pages page

-- The pages of a list among `left` pages from `from` on, in ascending order and each of them once.
unfoldable pub sorted_pages : List PageNumber → ℕ → PageNumber → List PageNumber
sorted_pages pages zero from = []
sorted_pages pages (suc left) from =
    let rest = sorted_pages pages left (suc from) in
    if has_page pages from then from ∷ rest else rest

-- The pages of a list are all in a range.
abbrev pub AllWithin : List PageNumber → ℕ → ℕ → Type 0
AllWithin [] from to = Unit {0}
AllWithin (page ∷ pages) from to = (from ≤ page) × (page < to) × AllWithin pages from to

set_pages_here :
    (page : PageNumber) (pages : List PageNumber) (e e' e'' : InlineUsageMapEncoder)
    → set_page page e ≡ done tt e'
    → set_pages pages e' ≡ done tt e''
    → set_pages (page ∷ pages) e ≡ done tt e''
unfolding set_pages
set_pages_here page pages e e' e'' first rest = rw first rest

set_pages-bits :
    (pages : List PageNumber) (start : PageNumber) (bitmap : List ℕ)
    → bit_count bitmap < 2 ^ 64
    → AllBytes bitmap
    → AllWithin pages start (start + bit_count bitmap)
    → (bits : List ℕ) × (set_pages pages (record { start_page = start; bitmap = bitmap })
        ≡ done tt (record { start_page = start; bitmap = bits }))
      × (length bits ≡ length bitmap)
      × ((j : ℕ) → bit_at bits j ≡ (if has_page pages (start + j) then 1 else bit_at bitmap j))
unfolding set_pages
set_pages-bits [] start bitmap small h inside = (bitmap, refl, refl, λ j. refl)
set_pages-bits (page ∷ pages) start bitmap small h inside =
    let (mid, first, len, bytes, now) =
      update_inline-bit_at page true (record { start_page = start; bitmap = bitmap }) small h
        inside.0 (inside.1) in
    let (bits, rest, len', later) =
      set_pages-bits pages start mid (rw len small) bytes (rw len (inside.2)) in
    (
      bits,
      set_pages_here page pages _ _ _ first rest,
      len' ∙ len,
      λ j. later j ∙ ground (arith, now j),
    )

byte_at-replicate : (n i : ℕ) → byte_at (replicate n 0) i ≡ 0
byte_at-replicate zero i = refl
byte_at-replicate (suc n) zero = refl
byte_at-replicate (suc n) (suc i) = byte_at-replicate n i

clear_bit :
    (pages : List PageNumber) (start n j : ℕ)
    → (if has_page pages (start + j) then 1 else bit_at (replicate n 0) j)
      ≡ (if has_page pages (start + j) then 1 else 0)
clear_bit pages start n j = ground (arith, byte_at-replicate n (j / 8))

set_bits-sorted_pages :
    (pages : List PageNumber) (start : PageNumber) (bits : List ℕ) (left from : ℕ)
    → ((j : ℕ) → bit_at bits j ≡ (if has_page pages (start + j) then 1 else 0))
    → map (λ bit. start + bit) (set_bits bits left from) ≡ sorted_pages pages left (start + from)
unfolding set_bits sorted_pages
set_bits-sorted_pages pages start bits zero from marks = refl
set_bits-sorted_pages pages start bits (suc left) from marks =
    let next : start + suc from ≡ suc (start + from) = omega arith in
    let rest = set_bits-sorted_pages pages start bits left (suc from) marks in
    ground (arith, marks from, rw next at rest)

new_inline-zero :
    (reserves : ByteCount → Bool) (start : PageNumber) (n : ByteCount) (budget : ResourceBudget)
    → start < 2 ^ 32
    → HasU64Limits budget.limits
    → Fits (allocation n) budget
    → reserves n ≡ true
    → new_inline reserves start n budget
      ≡ done (record { start_page = start; bitmap = replicate n 0 }) (spend (allocation n) budget)
unfolding new_inline charge
new_inline-zero reserves start n budget small u room given =
    ground (arith, charge-Fits (allocation n) budget u room)

-- An iteration over a bitmap in which the bits of some pages are set.
drain_pages-marked :
    (start : PageNumber) (n : ByteCount) (pages : List PageNumber) (bits : List ℕ)
    (geometry : PageGeometry) (b : ResourceBudget)
    → length bits ≡ n
    → ((j : ℕ) → bit_at bits j ≡ (if has_page pages (start + j) then 1 else 0))
    → start + 8 * n ≤ geometry.page_count
    → geometry.page_count < 2 ^ 64
    → HasU64Limits b.limits
    → Fits (items (8 * n)) b
    → (end : InlineAllocatedPages × ResourceBudget) × (drain_pages
          (suc (8 * n))
          (allocated_pages start bits geometry, b)
        ≡ done (sorted_pages pages (8 * n) start) end)
drain_pages-marked start n pages bits geometry b size marks covered u64 v each =
    let listed =
      drain_pages-set_bits start bits geometry b v (rw size each) (rw size covered) u64 in
    let end : InlineAllocatedPages × ResourceBudget = (
      record (allocated_pages start bits geometry) { bits = standing_at bits (bit_count bits) },
      charged b (bit_count bits),
    ) in
    let first : start + 0 ≡ start = omega arith in
    let order = rw first at (set_bits-sorted_pages pages start bits (8 * length bits) 0 marks) in
    subst
      (λ k.
        (end : InlineAllocatedPages × ResourceBudget) × (drain_pages (suc (8 * k))
            (allocated_pages start bits geometry, b)
          ≡ done (sorted_pages pages (8 * k) start) end))
      size (end, listed ∙ ap (λ xs. done xs end) order)

-- Where the allocator gives the bitmap and the budgets, with `u64` limits, have room for it and for
-- one item for each bit: after `set_page` of any pages that a new inline map represents, in any
-- order and with repetitions, an iteration of the map's pages, in a geometry that has them all,
-- returns exactly those pages, in ascending order and each of them once.
pub drain_pages-set_pages :
    (reserves : ByteCount → Bool) (start : PageNumber) (n : ByteCount) (pages : List PageNumber)
    (geometry : PageGeometry) (budget b : ResourceBudget)
    → start < 2 ^ 32
    → reserves n ≡ true
    → HasU64Limits budget.limits
    → Fits (allocation n) budget
    → AllWithin pages start (start + 8 * n)
    → start + 8 * n ≤ geometry.page_count
    → geometry.page_count < 2 ^ 64
    → HasU64Limits b.limits
    → Fits (items (8 * n)) b
    → (e : InlineUsageMapEncoder) × (e' : InlineUsageMapEncoder) × (end : InlineAllocatedPages
        × ResourceBudget)
      × (new_inline reserves start n budget ≡ done e (spend (allocation n) budget))
      × (set_pages pages e ≡ done tt e')
      × (drain_pages (suc (8 * n)) (allocated_pages e'.start_page e'.bitmap geometry, b)
          ≡ done (sorted_pages pages (8 * n) start) end)
drain_pages-set_pages reserves start n pages geometry budget b small given u room inside covered u64
      v each =
    let len : length {A = ℕ} (replicate n 0) ≡ n = length-replicate n 0 in
    let (bits, set, same, marks) =
      set_pages-bits pages start (replicate n 0) (omega (arith, len))
        (replicate-AllBytes n 0 (omega arith)) (rw len inside) in
    let size : length bits ≡ n = same ∙ len in
    let clear : (j : ℕ) → bit_at bits j ≡ (if has_page pages (start + j) then 1 else 0) =
      λ j. marks j ∙ clear_bit pages start n j in
    let (end, runs) =
      drain_pages-marked start n pages bits geometry b size clear covered u64 v each in
    (
      record { start_page = start; bitmap = replicate n 0 },
      record { start_page = start; bitmap = bits },
      end,
      new_inline-zero reserves start n budget small u room given,
      set,
      runs,
    )
