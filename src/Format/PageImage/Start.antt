-- ===== src/Format/PageImage/Start.antt =====
-- A builder starts with a page that holds no row.
use jet3_rs.Common.{
  ℕ, ◌+◌, ◌≡◌, refl, arith, List, [], ◌∷◌, length, slice, sym, ap, ◌∙◌, replicate, copy_at,
  slice-copy_at, length-copy_at, get_or-copy_at_above, get_or-copy_at_below,
}
use mathlib.Core.Path.{subst}
use jet3_rs.Common.Bytes.{byte_at, to_le_bytes}
use jet3_rs.Common.Results.{Outcome, done, fail}
use jet3_rs.Format.Error.{Error}
use jet3_rs.Format.Resource.{ResourceBudget}
use jet3_rs.Format.Resource.Accounting.{HasU64Limits}
use jet3_rs.Format.PageKind.{data_page, page_tag}
use jet3_rs.Format.PageImage.{
  PageImage, DataPageBuilder, PageImageError, new_image, owned_builder, new_builder, write_at,
  encoding,
}
use jet3_rs.Format.PageImage.Contents.{Represents}
use jet3_rs.Format.PageImage.WriteAt.{write_at-output}

abbrev blank : List ℕ
blank = 1 ∷ replicate 2047 0

abbrev pub started : List ℕ → DataPageBuilder
started page = record { image = record { bytes = page }; row_count = 0; free_end = 2048 }

owned_page-Represents :
    (page owner : List ℕ)
    → length page ≡ 2048
    → length owner ≡ 4
    → byte_at page 0 ≡ 1
    → byte_at page 8 ≡ 0
    → byte_at page 9 ≡ 0
    → Represents (started (copy_at page 4 owner)) []
      × (slice (copy_at page 4 owner) 4 (4 + length owner) ≡ owner)
      × (byte_at (copy_at page 4 owner) 0 ≡ 1)
owned_page-Represents page owner len four tag low high = (
  record {
    size = length-copy_at page 4 owner ∙ len;
    count = refl;
    declared = omega (
      arith,
      get_or-copy_at_above page 4 owner 8 0 (omega arith),
      get_or-copy_at_above page 4 owner 9 0 (omega arith),
    );
    bounded = omega arith;
    room = omega arith;
    holds = refl;
  },
  slice-copy_at page 4 owner (omega arith),
  get_or-copy_at_below page 4 owner 0 0 (omega arith) ∙ tag,
)

abbrev builder_after :
    Outcome Error (PageImage × ResourceBudget) (Unit {0})
    → Outcome PageImageError ResourceBudget DataPageBuilder
builder_after o = elim o [
  | done _ s ↦ done (record { image = s.0; row_count = 0; free_end = 2048 }) (s.1)
  | fail e s ↦ fail (encoding e) (s.1)
]

builder_after_parts :
    (o : Outcome Error (PageImage × ResourceBudget) (Unit {0})) (budget' : ResourceBudget)
    (b : DataPageBuilder)
    → builder_after o ≡ done b budget'
    → (image : PageImage) × (o ≡ done tt (image, budget'))
      × (b ≡ record { image = image; row_count = 0; free_end = 2048 })
builder_after_parts (done t (image, spent)) budget' b h = (image, cc h, cc h)
builder_after_parts (fail e s) budget' b h = cc h

owned_builder_parts :
    (owner : List ℕ) (budget budget' : ResourceBudget) (b : DataPageBuilder)
    → owned_builder owner budget ≡ done b budget'
    → (image : PageImage) × (write_at 4 owner (new_image data_page, budget)
        ≡ done tt (image, budget'))
      × (b ≡ record { image = image; row_count = 0; free_end = 2048 })
unfolding owned_builder
owned_builder_parts owner budget budget' b h =
    builder_after_parts (write_at 4 owner (new_image data_page, budget)) budget' b h

blank_image : (new_image data_page).bytes ≡ blank
unfolding new_image page_tag
blank_image = refl

new_builder_owned :
    (owner : ℕ) (budget budget' : ResourceBudget) (b : DataPageBuilder)
    → new_builder owner budget ≡ done b budget'
    → owned_builder (to_le_bytes 4 owner) budget ≡ done b budget'
unfolding new_builder
new_builder_owned owner budget budget' b h = ground (arith, h)

builder_page :
    (owner : List ℕ) (budget budget' : ResourceBudget) (b : DataPageBuilder)
    → length owner ≡ 4
    → HasU64Limits budget.limits
    → owned_builder owner budget ≡ done b budget'
    → b ≡ started (copy_at blank 4 owner)
builder_page owner budget budget' b four u h =
    let (image, written, e) = owned_builder_parts owner budget budget' b h in
    let out : image.bytes ≡ copy_at blank 4 owner = rw (← blank_image) (
      write_at-output 4 owner (new_image data_page) image budget budget' (ap length blank_image)
        (omega arith) u written) in
    cc (out, e)

-- A new builder, where the limits are `u64` values, holds no row on a data page whose owner field is
-- the owner's four bytes and whose first byte is the data tag.
pub new_builder-Represents :
    (owner : ℕ) (budget budget' : ResourceBudget) (b : DataPageBuilder)
    → HasU64Limits budget.limits
    → new_builder owner budget ≡ done b budget'
    → Represents b []
      × (slice b.image.bytes 4 8 ≡ to_le_bytes 4 owner)
      × (byte_at b.image.bytes 0 ≡ 1)
new_builder-Represents owner budget budget' b u h =
    let e : b ≡ started (copy_at blank 4 (to_le_bytes 4 owner)) =
      builder_page (to_le_bytes 4 owner) budget budget' b refl u
        (new_builder_owned owner budget budget' b h) in
    subst
      (λ b.
        Represents b []
        × (slice b.image.bytes 4 8 ≡ to_le_bytes 4 owner)
        × (byte_at b.image.bytes 0 ≡ 1))
      (sym e) (owned_page-Represents blank (to_le_bytes 4 owner) refl refl refl refl refl)
