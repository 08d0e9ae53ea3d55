-- ===== src/Alloc/Map/Pages.antt =====
-- Calls of `next_page` up to the end give the pages of the set bits.
use jet3_rs.Common.{
  ℕ, zero, suc, ◌+◌, ◌-◌, ◌^◌, ◌≤◌, ◌<◌, ◌≡◌, refl, arith, List, [], ◌∷◌, map, Option, some, none,
  ◌∙◌, ap,
}
use jet3_rs.Common.Results.{Outcome, done, Op, continue}
use jet3_rs.Format.Geometry.{PageNumber, PageGeometry, contains, validate_reference}
use jet3_rs.Format.Resource.{ResourceBudget}
use jet3_rs.Format.Resource.Charges.{items}
use jet3_rs.Format.Resource.Accounting.{Fits, HasU64Limits}
use jet3_rs.Alloc.Bitmap.{SetBitCursor, SetBitError, next_set_bit}
use jet3_rs.Alloc.Bitmap.Position.{bit_count, standing_at}
use jet3_rs.Alloc.Bitmap.Scan.{charged, Search, found, none_left, refused, next_set_bit-Search}
use jet3_rs.Alloc.Bitmap.Drain.{
  set_bits, set_bits_clear, set_bits_here, charged-charged, never_refused, no_bits_left,
}
use jet3_rs.Alloc.Map.{
  InlineAllocatedPages, AllocationMapError, allocated_pages, page_of_bit, next_page,
}

-- `while let Some(page) = pages.next_page(...)?`, at most `fuel` times round.
unfoldable pub drain_pages :
    ℕ → Op AllocationMapError (InlineAllocatedPages × ResourceBudget) (List PageNumber)
drain_pages zero s = done [] s
drain_pages (suc fuel) s = continue (next_page s) λ next s'. elim next [
  | none ↦ done [] s'
  | some page ↦ continue (drain_pages fuel s') (λ more end. done (page ∷ more) end)
]

-- The pages before the bit `i`.
abbrev pages_at : ℕ → List ℕ → PageGeometry → ℕ → InlineAllocatedPages
pages_at start bitmap geometry i = record (allocated_pages start bitmap geometry) {
  bits = standing_at bitmap i;
}

module _ (start : ℕ) (bitmap : List ℕ) (geometry : PageGeometry) where
  next_page_found :
      (s s' : SetBitCursor × ResourceBudget) (i : ℕ)
      → next_set_bit bitmap s ≡ done (some i) s'
      → start + i < 2 ^ 64
      → start + i < geometry.page_count
      → next_page (record (allocated_pages start bitmap geometry) { bits = s.0 }, s.1)
        ≡ done
            (some (start + i))
            (record (allocated_pages start bitmap geometry) { bits = s'.0 }, s'.1)
  unfolding next_page page_of_bit validate_reference contains
  next_page_found s s' i e small inside = ground (arith, e)

  next_page-none :
      (s s' : SetBitCursor × ResourceBudget)
      → next_set_bit bitmap s ≡ done none s'
      → next_page (record (allocated_pages start bitmap geometry) { bits = s.0 }, s.1)
        ≡ done none (record (allocated_pages start bitmap geometry) { bits = s'.0 }, s'.1)
  unfolding next_page
  next_page-none s s' e = ground (arith, e)

drain_page :
    (fuel : ℕ) (page : PageNumber) (more : List PageNumber)
    (s s' end : InlineAllocatedPages × ResourceBudget)
    → next_page s ≡ done (some page) s'
    → drain_pages fuel s' ≡ done more end
    → drain_pages (suc fuel) s ≡ done (page ∷ more) end
unfolding drain_pages
drain_page fuel page more s s' end now rest = rw now (rw rest refl)

drain_no_page :
    (fuel : ℕ) (s s' : InlineAllocatedPages × ResourceBudget)
    → next_page s ≡ done none s'
    → drain_pages (suc fuel) s ≡ done [] s'
unfolding drain_pages
drain_no_page fuel s s' now = rw now refl

module _ (start : ℕ) (bytes : List ℕ) (geometry : PageGeometry) (b : ResourceBudget)
    (small : bit_count bytes < 2 ^ 64) (u : HasU64Limits b.limits)
    (room : Fits (items (bit_count bytes)) b)
    (covered : start + bit_count bytes ≤ geometry.page_count)
    (u64 : geometry.page_count < 2 ^ 64) where
  abbrev listed : ℕ → List PageNumber
  listed i = map (λ bit. start + bit) (set_bits bytes (bit_count bytes - i) i)

  abbrev pages_end : InlineAllocatedPages × ResourceBudget
  pages_end = (pages_at start bytes geometry (bit_count bytes), charged b (bit_count bytes))

  drain_pages_round :
      (fuel i : ℕ) (o : Outcome SetBitError (SetBitCursor × ResourceBudget) (Option ℕ))
      → i ≤ bit_count bytes
      → ((at : ℕ)
          → i ≤ at
          → at < bit_count bytes
          → drain_pages fuel (pages_at start bytes geometry (suc at), charged b (suc at))
            ≡ done (listed (suc at)) pages_end)
      → Search bytes (charged b i) i o
      → next_set_bit bytes (standing_at bytes i, charged b i) ≡ o
      → drain_pages (suc fuel) (pages_at start bytes geometry i, charged b i)
        ≡ done (listed i) pages_end
  drain_pages_round fuel i _ inside later (found at lo hi set clear) e =
      let paid = charged-charged bytes b small u room i (suc at) (omega arith) in
      let over = set_bits_clear bytes (bit_count bytes) i at lo (omega arith) clear in
      let here = set_bits_here bytes (bit_count bytes) at hi set in
      let now =
        next_page_found start bytes geometry _ _ at (rw paid at e) (omega arith) (omega arith) in
      let all : map (λ bit. start + bit) (set_bits bytes (bit_count bytes - i) i)
          ≡ (start + at) ∷ listed (suc at) =
        ap (map (λ bit. start + bit)) (over ∙ here) in
      rw all (drain_page fuel (start + at) (listed (suc at)) _ _ _ now (later at lo hi))
  drain_pages_round fuel i _ inside later (none_left clear) e =
      let paid = charged-charged bytes b small u room i (bit_count bytes) inside in
      let over =
        set_bits_clear bytes (bit_count bytes) i (bit_count bytes) inside (omega arith) clear in
      let now = next_page-none start bytes geometry _ _ (rw paid at e) in
      let all = ap (map (λ bit. start + bit)) (over ∙ no_bits_left bytes b small u room) in
      rw all (drain_no_page fuel _ _ now)
  drain_pages_round fuel i _ inside later (refused at x lo hi clear bad) e = absurd (
      never_refused bytes b small u room at x (charged b at) hi
        (rw (charged-charged bytes b small u room i at lo) at bad))

  drain_pages_from :
      (fuel i : ℕ)
      → bit_count bytes < i + fuel
      → i ≤ bit_count bytes
      → drain_pages fuel (pages_at start bytes geometry i, charged b i) ≡ done (listed i) pages_end
  drain_pages_from zero i enough inside = absurd (omega arith)
  drain_pages_from (suc fuel) i enough inside =
      drain_pages_round fuel i (next_set_bit bytes (standing_at bytes i, charged b i)) inside
        (λ at lo hi. drain_pages_from fuel (suc at) (omega arith) hi)
        (next_set_bit-Search bytes (charged b i) small i inside) refl

-- For an inline map whose pages all lie in the geometry, and a budget with `u64` limits that has
-- room for one item for each bit, calls of `next_page` from the beginning until it gives none return
-- the pages of the set bits, each of them once and in ascending order. They charge one item for each
-- bit and fail at none.
pub drain_pages-set_bits :
    (start : ℕ) (bytes : List ℕ) (geometry : PageGeometry) (b : ResourceBudget)
    → HasU64Limits b.limits
    → Fits (items (bit_count bytes)) b
    → start + bit_count bytes ≤ geometry.page_count
    → geometry.page_count < 2 ^ 64
    → drain_pages (suc (bit_count bytes)) (allocated_pages start bytes geometry, b)
      ≡ done (map (λ bit. start + bit) (set_bits bytes (bit_count bytes) 0)) (
        record (allocated_pages start bytes geometry) {
          bits = standing_at bytes (bit_count bytes);
        },
        charged b (bit_count bytes),
      )
drain_pages-set_bits start bytes geometry b u room covered u64 =
    let whole : bit_count bytes - 0 ≡ bit_count bytes = omega arith in
    let unpaid : charged b 0 ≡ b = ground arith in
    let all =
      drain_pages_from start bytes geometry b (omega arith) u room covered u64
        (suc (bit_count bytes)) 0 (omega arith) (omega arith) in
    rw unpaid at (rw whole at all)
