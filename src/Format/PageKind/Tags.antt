-- ===== src/Format/PageKind/Tags.antt =====
-- What a page's classification keeps of it.
use jet3_rs.Common.{ℕ, ◌+◌, ◌≡◌, refl, ◌≢◌, arith, List}
use jet3_rs.Common.Bytes.{byte_at}
use jet3_rs.Common.Results.{done}
use jet3_rs.Format.Geometry.{PageNumber}
use jet3_rs.Format.Resource.{ResourceBudget, charge_work_units}
use jet3_rs.Format.PageKind.{
  PageKind, database_definition, unknown, page_tag, kind_of, ClassifiedPage, classify_page,
}

-- The kind is one that the page number allows: page zero is the database definition or unknown,
-- and no other page is the database definition.
abbrev pub InContext : PageNumber → PageKind → Type 0
InContext number database_definition = number ≡ 0
InContext number (unknown tag) = Unit {0}
InContext number k = number ≢ 0

-- A page that is classified keeps its number and its bytes, its kind tells byte zero and is one
-- that its number allows, and one work unit is charged and nothing else.
pub classify_page_lem :
    (number : PageNumber) (raw : List ℕ) (b b' : ResourceBudget) (p : ClassifiedPage)
    → classify_page number raw b ≡ done p b'
    → (p.number ≡ number)
      × (p.raw ≡ raw)
      × (page_tag p.kind ≡ byte_at raw 0)
      × InContext number p.kind
      × (b' ≡ record b { total_work_units = b.total_work_units + 1 })
unfolding classify_page page_tag charge_work_units
classify_page_lem number raw b b' p h = ground arith

-- The kind of a page is determined by the tag and the number: a kind that the number allows is the
-- kind of its own tag, if it is no unknown kind.
pub kind_of-page_tag :
    (number : PageNumber) (k : PageKind)
    → InContext number k
    → ((tag : ℕ) → k ≢ unknown tag)
    → kind_of number (page_tag k) ≡ k
unfolding kind_of page_tag
kind_of-page_tag number database_definition c h = ground arith
kind_of-page_tag number (unknown tag) c h = absurd (h tag refl)
kind_of-page_tag number k c h = ground arith
