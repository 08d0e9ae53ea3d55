-- ===== src/Alloc/Examples.antt =====
-- Small maps, records and pages of map rows at concrete values.
use jet3_rs.Common.{
  ℕ, ◌+◌, ◌*◌, ◌<◌, ◌≡◌, refl, arith, List, [], ◌∷◌, ◌++◌, length, replicate, some, true,
  if◌then◌else◌, ◌==◌, slice,
}
use jet3_rs.Common.Bytes.{AllBytes, AllBytes-append, replicate-AllBytes}
use jet3_rs.Common.Results.{done}
use jet3_rs.Format.Geometry.{PageGeometry}
use jet3_rs.Format.PageKind.{ClassifiedPage, data_page}
use jet3_rs.Format.Resource.{
  ResourceBudget, charge_items, charge_work_units, default_limits, new_budget,
}
use jet3_rs.Format.Resource.Charges.{items, work, allocation}
use jet3_rs.Format.Resource.Accounting.{HasU64Limits, spend}
use jet3_rs.Format.DataPageDirectory.{declared_row_count, raw_offset}
use jet3_rs.Format.DataPageDirectory.Shape.{start_of, end_of}
use jet3_rs.Alloc.Bitmap.{next_set_bit, scan, advance}
use jet3_rs.Alloc.Bitmap.Position.{bit_at, standing_at}
use jet3_rs.Alloc.Bitmap.Scan.{Search, next_set_bit-Search}
use jet3_rs.Alloc.Map.{
  InlineAllocatedPages, inline, indirect, decode_allocation_map, allocated_pages,
}
use jet3_rs.Alloc.Map.Pages.{drain_pages}
use jet3_rs.Alloc.Encoder.{
  InlineUsageMapEncoder, new_inline, update_inline, encode_inline, encode_indirect_references,
}
use jet3_rs.Alloc.Encoder.Bits.{update_inline-bit_at}
use jet3_rs.Alloc.Encoder.Records.{decode_allocation_map-encode_inline}
use jet3_rs.Alloc.Encoder.References.{collect, cursor_at, collect-encode_indirect_references}
use jet3_rs.Alloc.Encoder.Allocated.{set_pages, sorted_pages, drain_pages-set_pages}
use jet3_rs.Alloc.UsageMap.{MapRowLocator, check_row, select_row, locate_usage_map}
use jet3_rs.Alloc.UsageMap.Located.{IsMapRow, Admitted, record_at, locate_usage_map_iff}

abbrev budget : ResourceBudget
budget = new_budget default_limits

limits_u64 : HasU64Limits default_limits
limits_u64 = record {
  allocation_u64 = omega arith;
  decoded_u64 = omega arith;
  encoded_u64 = omega arith;
  items_u64 = omega arith;
  visits_u64 = omega arith;
  work_u64 = omega arith;
}

abbrev bitmap : List ℕ
bitmap = 0x12 ∷ 0x80 ∷ []

-- From bit 2 on, the next set bit is bit 4.
next_set_bit-Search_example :
    Search bitmap budget 2 (next_set_bit bitmap (standing_at bitmap 2, budget))
next_set_bit-Search_example = next_set_bit-Search bitmap budget (omega arith) 2 (omega arith)

next_set_bit_run :
    next_set_bit bitmap (standing_at bitmap 2, budget)
    ≡ done (some 4) (standing_at bitmap 5, spend (items 3) budget)
unfolding next_set_bit scan advance charge_items
next_set_bit_run = refl

abbrev encoder : InlineUsageMapEncoder
encoder = record { start_page = 100; bitmap = bitmap }

update_inline-bit_at_example :
    (bits : List ℕ) × (update_inline 105 true encoder
      ≡ done tt (record { start_page = 100; bitmap = bits }))
    × (length bits ≡ 2)
    × AllBytes bits
    × ((j : ℕ) → bit_at bits j ≡ (if 100 + j == 105 then 1 else bit_at bitmap j))
update_inline-bit_at_example =
    update_inline-bit_at 105 true encoder (omega arith) (omega arith, (omega arith, tt))
      (omega arith) (omega arith)

decode_allocation_map-encode_inline_example :
    (output' : List ℕ) × (paid : ResourceBudget) × (encode_inline encoder (replicate 9 0xff, budget)
      ≡ done 7 (output', paid))
    × (decode_allocation_map (slice output' 0 7) budget
        ≡ done (inline 100 bitmap) (spend (work 1) budget))
decode_allocation_map-encode_inline_example =
    decode_allocation_map-encode_inline encoder (replicate 9 0xff) budget budget (omega arith)
      (omega arith) limits_u64 (omega arith) (omega arith, omega arith) limits_u64 (omega arith)

collect-encode_indirect_references_example :
    (output' : List ℕ) × (paid : ResourceBudget) × (payload : List ℕ) × (encode_indirect_references
        (0 ∷ 70000 ∷ [])
        (replicate 10 0, budget)
      ≡ done 9 (output', paid))
    × (decode_allocation_map (slice output' 0 9) budget
        ≡ done (indirect payload) (spend (work 1) budget))
    × (collect 3 payload (cursor_at payload 0, budget)
        ≡ done (0 ∷ 70000 ∷ []) (cursor_at payload (length payload), spend (items 2) budget))
collect-encode_indirect_references_example =
    collect-encode_indirect_references (0 ∷ 70000 ∷ []) (replicate 10 0) budget budget
      (omega arith, (omega arith, tt)) (omega arith) limits_u64 (omega arith)
      (omega arith, omega arith) limits_u64 (omega arith) (omega arith, omega arith)

abbrev geometry : PageGeometry
geometry = record { source_len = 2048 * 200; page_size = 2048; page_count = 200 }

-- The pages 107, 101 and again 107, in a map of 16 pages from page 100 on.
drain_pages-set_pages_example :
    (e : InlineUsageMapEncoder) × (e' : InlineUsageMapEncoder) × (end : InlineAllocatedPages
      × ResourceBudget)
    × (new_inline (λ n. true) 100 2 budget ≡ done e (spend (allocation 2) budget))
    × (set_pages (107 ∷ 101 ∷ 107 ∷ []) e ≡ done tt e')
    × (drain_pages 17 (allocated_pages e'.start_page e'.bitmap geometry, budget)
        ≡ done (sorted_pages (107 ∷ 101 ∷ 107 ∷ []) 16 100) end)
drain_pages-set_pages_example =
    drain_pages-set_pages (λ n. true) 100 2 (107 ∷ 101 ∷ 107 ∷ []) geometry budget budget
      (omega arith) refl limits_u64 (omega arith, omega arith)
      (omega arith, omega arith, (omega arith, omega arith, (omega arith, omega arith, tt)))
      (omega arith) (omega arith) limits_u64 (omega arith, omega arith)

sorted_pages_run : sorted_pages (107 ∷ 101 ∷ 107 ∷ []) 16 100 ≡ 101 ∷ 107 ∷ []
unfolding sorted_pages
sorted_pages_run = refl

-- A page with a deleted row and a row of five bytes.
abbrev map_page : ClassifiedPage
map_page = record {
  number = 7;
  kind = data_page;
  raw = 1 ∷ replicate 7 0 ++ (2 ∷ 0 ∷ 0x00 ∷ 0xc8 ∷ 0xfb ∷ 0x07 ∷ replicate 2034 0);
}

abbrev locator : MapRowLocator
locator = record { page = 7; row = 1 }

abbrev paid : ResourceBudget
paid = spend (items 2) (spend (work 1) budget)

map_page_located :
    locate_usage_map map_page locator budget ≡ done (record_at map_page locator 2043 2048) paid
unfolding locate_usage_map select_row check_row charge_items charge_work_units slice
map_page_located = refl

map_page-AllBytes : AllBytes map_page.raw
map_page-AllBytes =
    AllBytes-append (1 ∷ replicate 7 0) (2 ∷ 0 ∷ 0x00 ∷ 0xc8 ∷ 0xfb ∷ 0x07 ∷ replicate 2034 0)
      (omega arith, replicate-AllBytes 7 0 (omega arith))
      (AllBytes-append (2 ∷ 0 ∷ 0x00 ∷ 0xc8 ∷ 0xfb ∷ 0x07 ∷ []) (replicate 2034 0)
        (omega arith, (omega arith, (omega arith, (omega arith, (omega arith, (omega arith, tt))))))
        (replicate-AllBytes 2034 0 (omega arith)))

locate_usage_map_iff_example :
    Admitted map_page locator budget paid
    × ((row : ℕ) → row < declared_row_count map_page.raw → IsMapRow map_page.raw 1 row)
    × (record_at map_page locator 2043 2048
        ≡ record_at map_page locator (start_of (raw_offset map_page.raw 1)) (end_of map_page.raw 1))
locate_usage_map_iff_example =
    (locate_usage_map_iff map_page locator budget paid (record_at map_page locator 2043 2048)
        map_page-AllBytes limits_u64).0
      map_page_located
