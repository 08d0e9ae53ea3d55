-- ===== src/Format/Examples/Pages.antt =====
-- Page geometry, page tags and commit slots at concrete values.
use jet3_rs.Common.{ℕ, ◌≡◌, refl, arith, ◌≢◌, List, ◌∷◌, replicate}
use jet3_rs.Common.Results.{ok}
use jet3_rs.Format.Resource.{default_limits, new_budget, ResourceBudget}
use jet3_rs.Format.Geometry.{PageGeometry, byte_offset}
use jet3_rs.Format.Geometry.Ranges.{IsGeometry, byte_offset_iff}
use jet3_rs.Format.PageKind.{ClassifiedPage, data_page, unknown}
use jet3_rs.Format.CommitState.{CommitRegion, CommitSlot}

abbrev five_pages : PageGeometry
five_pages = record { source_len = 10240; page_size = 2048; page_count = 5 }

abbrev five_pages_IsGeometry : IsGeometry five_pages
five_pages_IsGeometry = record { size_pos = omega arith; whole = refl; len_u64 = omega arith }

byte_offset_iff_example : byte_offset five_pages 3 17 ≡ ok 6161
byte_offset_iff_example =
    (byte_offset_iff five_pages 3 17 6161 five_pages_IsGeometry).1 (omega arith, refl, refl)

abbrev budget : ResourceBudget
budget = new_budget default_limits

abbrev raw_page : List ℕ
raw_page = 1 ∷ replicate 2047 0

abbrev classified : ClassifiedPage
classified = record { number = 4; kind = data_page; raw = raw_page }

data_page_known : (tag : ℕ) → data_page ≢ unknown tag
data_page_known tag e = cc e

abbrev header_page : List ℕ
header_page = replicate 2048 3

abbrev second_slot : CommitSlot
second_slot = record { index = 1; raw = (3, 3) }

abbrev region : CommitRegion
region = record { raw = replicate 512 3 }

abbrev zeros : ℕ × ℕ
zeros = (0, 0)
