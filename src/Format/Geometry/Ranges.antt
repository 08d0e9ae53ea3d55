-- ===== src/Format/Geometry/Ranges.antt =====
-- The pages of a geometry cover the source, each byte once.
use jet3_rs.Common.{ℕ, ◌+◌, ◌*◌, ◌/◌, ◌%◌, ◌^◌, ◌≤◌, ◌<◌, ◌≡◌, ◌↔◌, arith, ap, ◌∙◌}
use native.Mathlib.Nat.{
  div-add-mod, div-add-mod', mod-lt, mul-mod_left, mul-div_cancel, mul-add-div_right, div-eq_of_lt,
  mul-add-mod_self_right, mod-eq_of_lt,
}
use jet3_rs.Common.Results.{ok}
use jet3_rs.Format.Geometry.{
  PageGeometry, PageNumber, PageOffset, new_geometry, page_byte_range, byte_offset,
}

-- The geometry of a source of whole pages, its length a `u64`.
pub record IsGeometry (g : PageGeometry) : Type 0 where
  pub size_pos : 0 < g.page_size
  pub whole : g.page_count * g.page_size ≡ g.source_len
  pub len_u64 : g.source_len < 2 ^ 64

page_end-le : (page count size : ℕ) → page < count → page * size + size ≤ count * size
page_end-le page count size h = grind arith

whole_of_mod : (n size : ℕ) → n % size ≡ 0 → n / size * size ≡ n
whole_of_mod n size h = omega (arith, div-add-mod n size)

mod_of_whole : (k size : ℕ) → k * size % size ≡ 0
mod_of_whole k size = mul-mod_left k size

div_of_whole : (k size : ℕ) → 0 < size → k * size / size ≡ k
div_of_whole k size h = mul-div_cancel k h

div_of_parts : (page offset size : ℕ) → offset < size → (page * size + offset) / size ≡ page
div_of_parts page offset size h =
    omega (arith, mul-add-div_right {m = size} (omega arith) page offset, div-eq_of_lt h)

mod_of_parts : (page offset size : ℕ) → offset < size → (page * size + offset) % size ≡ offset
mod_of_parts page offset size h = mul-add-mod_self_right page size offset ∙ mod-eq_of_lt h

div-lt_count : (n count size : ℕ) → n < count * size → n / size < count
div-lt_count n count size h = grind arith

-- Of a length that is a `u64`, a geometry is made exactly of a page size that is not zero and
-- divides the length, and is then the one of whole pages.
pub new_geometry_iff :
    (source_len page_size : ℕ) (g : PageGeometry)
    → source_len < 2 ^ 64
    → (new_geometry source_len page_size ≡ ok g)
      ↔ (IsGeometry g × (g.source_len ≡ source_len) × (g.page_size ≡ page_size))
unfolding new_geometry
new_geometry_iff source_len page_size g h = (
  λ p. ground (arith, whole_of_mod source_len page_size),
  λ p. ground (arith, mod_of_whole g.page_count g.page_size, div_of_whole g.page_count g.page_size),
)

-- A page of the geometry has as its range its own `page_size` bytes inside the source, and no page
-- from the page count on has a range.
pub page_byte_range_iff :
    (g : PageGeometry) (page start len : ℕ)
    → IsGeometry g
    → (page_byte_range g page ≡ ok (start, len)) ↔ (
        (page < g.page_count)
        × (start ≡ page * g.page_size)
        × (len ≡ g.page_size)
        × (start + len ≤ g.source_len))
unfolding page_byte_range
page_byte_range_iff g page start len v = (
  λ p. ground (arith, page_end-le page g.page_count g.page_size),
  λ p. ground (arith, page_end-le page g.page_count g.page_size),
)

byte_offset_inside :
    (g : PageGeometry) (page offset : ℕ)
    → IsGeometry g
    → page < g.page_count
    → offset < g.page_size
    → byte_offset g page offset ≡ ok (page * g.page_size + offset)
unfolding byte_offset
byte_offset_inside g page offset v p o = ground (arith, page_end-le page g.page_count g.page_size)

byte_offset_inside_only :
    (g : PageGeometry) (page offset at : ℕ)
    → IsGeometry g
    → byte_offset g page offset ≡ ok at
    → (page < g.page_count) × (offset < g.page_size) × (at ≡ page * g.page_size + offset)
unfolding byte_offset
byte_offset_inside_only g page offset at v h = ground arith

-- A page and a page offset name the absolute byte `at` exactly when `at` lies in the source, the
-- page is its quotient by the page size and the offset its remainder: every byte of the source has
-- one name.
pub byte_offset_iff :
    (g : PageGeometry) (page : PageNumber) (offset : PageOffset) (at : ℕ)
    → IsGeometry g
    → (byte_offset g page offset ≡ ok at)
      ↔ ((at < g.source_len) × (page ≡ at / g.page_size) × (offset ≡ at % g.page_size))
byte_offset_iff g page offset at v = (
  λ h.
      let (p, o, e) = byte_offset_inside_only g page offset at v h in
      ground (
        arith,
        page_end-le page g.page_count g.page_size p,
        div_of_parts page offset g.page_size o,
        mod_of_parts page offset g.page_size o,
      ),
  λ (lt, p, o).
      rw (p, o)
        (byte_offset_inside g _ _ v (div-lt_count at _ _ (rw v.whole lt)) (mod-lt at v.size_pos)
          ∙ ap ok (div-add-mod' at g.page_size)),
)
