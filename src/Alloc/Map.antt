-- ===== src/Alloc/Map.antt =====
-- crates/jet3/src/alloc/map.rs: the records of allocation maps, and the pages and references in them.
pub mod Pages
use jet3_rs.Common.{
  ℕ, ◌+◌, ◌-◌, ◌*◌, ◌/◌, ◌%◌, ltb, leb, ◌==◌, if◌then◌else◌, Bool, true, false, not, ◌&&◌, Option,
  none, some, List, [], ◌∷◌, length, slice, drop,
}
use jet3_rs.Common.Bytes.{byte_at, from_le_bytes}
use jet3_rs.Common.Results.{
  Result, ok, err, Outcome, done, fail, Op, ◌>>=◌, ◌>>◌, lift, return, throw, on_error, continue,
  ok_or, refuse_if,
}
use jet3_rs.Format.Error.{Error, arithmetic}
use jet3_rs.Format.Offset.{checked_add}
use jet3_rs.Format.Geometry.{PageNumber, PageGeometry, validate_reference}
use jet3_rs.Format.PageKind.{PageKind, ClassifiedPage, extended_usage_bitmap}
use jet3_rs.Format.Resource.{ResourceBudget, charge_items, charge_work_units}
use jet3_rs.Alloc.Bitmap.{
  SetBitCursor, SetBitError, resource, arithmetic_failure, new_cursor, next_set_bit,
}

abbrev pub inline_header_len : ℕ
inline_header_len = 5

abbrev pub indirect_reference_len : ℕ
indirect_reference_len = 4

abbrev pub extended_bitmap_offset : ℕ
extended_bitmap_offset = 4

-- `(PAGE_BYTES - EXTENDED_BITMAP_OFFSET) * 8`.
abbrev pub extended_bitmap_bits : ℕ
extended_bitmap_bits = (2048 - extended_bitmap_offset) * 8

-- `Range<usize>`.
pub record Range : Type 0 where
  pub start : ℕ
  pub end : ℕ

pub data AllocationMapLayout : Type 0 where
  inline_layout : (start_page : PageNumber) (bitmap : Range) → AllocationMapLayout
  indirect_layout : (references : Range) → AllocationMapLayout

pub data AllocationMap : Type 0 where
  inline : (start_page : PageNumber) (bitmap : List ℕ) → AllocationMap
  indirect : (references : List ℕ) → AllocationMap

pub data AllocationMapError : Type 0 where
  empty_record : AllocationMapError
  inline_record_too_short : (actual_len : ℕ) → AllocationMapError
  indirect_payload_misaligned : (payload_len : ℕ) → AllocationMapError
  unsupported_record_type : (record_type : ℕ) → AllocationMapError
  expected_extended_usage_bitmap : (page : PageNumber) (actual : PageKind) → AllocationMapError
  page_number_overflow : (start_page bit_index : ℕ) → AllocationMapError
  map_arithmetic : Error → AllocationMapError
  page_reference : Error → AllocationMapError
  map_resource : Error → AllocationMapError

-- The conversion of the bit cursor's errors.
unfoldable pub from_set_bit_error : SetBitError → AllocationMapError
from_set_bit_error (resource source) = map_resource source
from_set_bit_error (arithmetic_failure source) = map_arithmetic source

-- The record behind its charge.
unfoldable pub layout_of : List ℕ → Result AllocationMapError AllocationMapLayout
layout_of [] = err empty_record
layout_of (record_type ∷ payload) =
    if record_type == 0x00
    then (if ltb (length (record_type ∷ payload)) inline_header_len
        then err (inline_record_too_short (length (record_type ∷ payload)))
        else ok (
            inline_layout (from_le_bytes (slice payload 0 4))
              (record { start = inline_header_len; end = length (record_type ∷ payload) })))
    else if record_type == 0x01
    then (if not (length payload % indirect_reference_len == 0)
        then err (indirect_payload_misaligned (length payload))
        else ok (indirect_layout (record { start = 1; end = length (record_type ∷ payload) })))
    else err (unsupported_record_type record_type)

unfoldable pub decode_allocation_map_layout :
    List ℕ → Op AllocationMapError ResourceBudget AllocationMapLayout
unfolding layout_of
decode_allocation_map_layout bytes = do
  λ budget. on_error map_resource (charge_work_units 1 budget)
  lift (layout_of bytes)

-- `slice::get(range)`.
abbrev pub get_range : List ℕ → Range → Option (List ℕ)
get_range xs r =
    if leb r.start r.end && leb r.end (length xs) then some (slice xs r.start r.end) else none

-- The record's map, borrowed from the record by its layout.
unfoldable pub map_of : List ℕ → AllocationMapLayout → Result AllocationMapError AllocationMap
map_of bytes (inline_layout start_page bitmap) = elim (get_range bytes bitmap) [
  | none ↦ err (map_arithmetic (arithmetic "access decoded inline allocation-map bitmap"))
  | some found ↦ ok (inline start_page found)
]
map_of bytes (indirect_layout references) = elim (get_range bytes references) [
  | none ↦ err (map_arithmetic (arithmetic "access decoded indirect allocation-map references"))
  | some found ↦ ok (indirect found)
]

unfoldable pub decode_allocation_map : List ℕ → Op AllocationMapError ResourceBudget AllocationMap
unfolding decode_allocation_map_layout map_of
decode_allocation_map bytes = do
  layout ← decode_allocation_map_layout bytes
  lift (map_of bytes layout)

-- `page.kind() != PageKind::ExtendedUsageBitmap`.
abbrev pub is_extended_usage_bitmap : PageKind → Bool
is_extended_usage_bitmap extended_usage_bitmap = true
is_extended_usage_bitmap _ = false

abbrev pub extended_bitmap_bytes : List ℕ → List ℕ
extended_bitmap_bytes raw = drop extended_bitmap_offset raw

-- The bits that `ExtendedAllocationBits` goes over.
unfoldable pub extended_allocation_bits : ClassifiedPage → Result AllocationMapError (List ℕ)
extended_allocation_bits page =
    if not (is_extended_usage_bitmap page.kind)
    then err (expected_extended_usage_bitmap page.number page.kind)
    else ok (extended_bitmap_bytes page.raw)

pub record InlineAllocatedPages : Type 0 where
  pub start_page : PageNumber
  pub bitmap : List ℕ
  pub bits : SetBitCursor
  pub geometry : PageGeometry
  pub exhausted : Bool

-- `InlineAllocationMap::allocated_pages`.
abbrev pub allocated_pages : PageNumber → List ℕ → PageGeometry → InlineAllocatedPages
allocated_pages start_page bitmap geometry = record {
  start_page = start_page;
  bitmap = bitmap;
  bits = new_cursor;
  geometry = geometry;
  exhausted = false;
}

-- The page of a set bit: a failure gives the pages up.
unfoldable pub page_of_bit :
    ℕ → Op AllocationMapError (InlineAllocatedPages × ResourceBudget) (Option PageNumber)
page_of_bit bit_index (pages, budget) = elim (checked_add pages.start_page bit_index) [
  | none ↦
      fail (page_number_overflow pages.start_page bit_index)
        (record pages { exhausted = true }, budget)
  | some page ↦ elim (validate_reference pages.geometry page) [
    | err source ↦ fail (page_reference source) (record pages { exhausted = true }, budget)
    | ok _ ↦ done (some page) (pages, budget)
  ]
]

unfoldable pub next_page :
    Op AllocationMapError (InlineAllocatedPages × ResourceBudget) (Option PageNumber)
unfolding page_of_bit
next_page (pages, budget) =
    if pages.exhausted
    then done none (pages, budget)
    else elim (next_set_bit pages.bitmap (pages.bits, budget)) [
      | fail e s ↦ fail (from_set_bit_error e) (record pages { bits = s.0 }, s.1)
      | done next s ↦ elim next [
        | none ↦ done none (record pages { bits = s.0 }, s.1)
        | some bit_index ↦ page_of_bit bit_index (record pages { bits = s.0 }, s.1)
      ]
    ]

pub record MapReferenceCursor : Type 0 where
  pub references : Range
  pub offset : ℕ

abbrev pub new_reference_cursor : Range → MapReferenceCursor
new_reference_cursor references = record { references = references; offset = references.start }

unfoldable pub next_reference :
    List ℕ → Op AllocationMapError (MapReferenceCursor × ResourceBudget) (Option ℕ)
next_reference bytes (c, budget) =
    if c.offset == c.references.end then done none (c, budget) else elim (charge_items 1 budget) [
      | fail e paid ↦ fail (map_resource e) (c, paid)
      | done _ paid ↦ elim (checked_add c.offset indirect_reference_len) [
        | none ↦
            fail (map_arithmetic (arithmetic "advance indirect allocation-map reference cursor"))
              (c, paid)
        | some end ↦
            if ltb c.references.end end
            then fail (map_arithmetic (arithmetic "measure indirect allocation-map reference"))
                (c, paid)
            else elim (get_range bytes (record { start = c.offset; end = end })) [
              | none ↦
                  fail (map_arithmetic (arithmetic "access indirect allocation-map reference"))
                    (c, paid)
              | some entry ↦
                  done (some (from_le_bytes (slice entry 0 4))) (record c { offset = end }, paid)
            ]
      ]
    ]

unfoldable pub remaining_references : MapReferenceCursor → ℕ
remaining_references c = (c.references.end - c.offset) / indirect_reference_len
