-- ===== src/Alloc/Encoder/References.antt =====
-- Indirect records: the references that are written come back one by one.
use jet3_rs.Common.{
  ℕ, zero, suc, ◌+◌, ◌-◌, ◌*◌, ◌^◌, ◌≤◌, ◌<◌, ◌≡◌, refl, arith, ap, ◌∙◌, ltb, true, none, some,
  List, [], ◌∷◌, ◌++◌, length, length-append, slice, slice-copy_at, copy_at,
}
use mathlib.Core.List.{append_assoc, append-nil}
use jet3_rs.Common.Bytes.{to_le_bytes, from_le_bytes-to_le_bytes}
use jet3_rs.Common.Results.{Result, map_err, Outcome, done, lift, ok, continue, Op}
use jet3_rs.Format.Error.{Error}
use jet3_rs.Format.Offset.{ByteCount}
use jet3_rs.Format.Geometry.{PageNumber}
use jet3_rs.Format.Resource.{ResourceBudget}
use jet3_rs.Format.Resource.Charges.{encoded, items, work, charge}
use jet3_rs.Format.Resource.Accounting.{Fits, spend, HasU64Limits, charge-Fits}
use jet3_rs.Format.Writer.{write_u8, write_u32_le}
use jet3_rs.Format.Writer.Sequences.{
  Writes, write_exact-Writes, then-Writes, nothing-Writes, on_error-Writes,
}
use jet3_rs.Alloc.Map.{
  indirect_layout, AllocationMapError, indirect, layout_of, map_of, decode_allocation_map,
  MapReferenceCursor, next_reference,
}
use jet3_rs.Alloc.Encoder.{
  UsageMapWriteError, encoding, write_references, indirect_writes, encode_indirect_references,
  indirect_record_len,
}
use jet3_rs.Alloc.Encoder.Records.{on_output-Writes, decode_paid, slice_behind}

-- The references, four bytes each.
abbrev pub reference_bytes : List PageNumber → List ℕ
reference_bytes [] = []
reference_bytes (page ∷ pages) = to_le_bytes 4 page ++ reference_bytes pages

abbrev pub AllRepresentable : List PageNumber → Type 0
AllRepresentable [] = Unit {0}
AllRepresentable (page ∷ pages) = (page < 2 ^ 32) × AllRepresentable pages

length-reference_bytes :
    (pages : List PageNumber) → length (reference_bytes pages) ≡ 4 * length pages
length-reference_bytes [] = omega arith
length-reference_bytes (page ∷ pages) = ground (arith, length-reference_bytes pages)

write_references-Writes :
    (pages : List PageNumber)
    → AllRepresentable pages
    → Writes (write_references pages) (reference_bytes pages)
unfolding write_references write_u32_le
write_references-Writes [] h = nothing-Writes
write_references-Writes (page ∷ pages) h =
    let rest = write_references-Writes pages h.1 in
    let both =
      then-Writes (to_le_bytes 4 page) (reference_bytes pages)
        (on_error-Writes encoding (to_le_bytes 4 page) (write_exact-Writes (to_le_bytes 4 page)))
        rest in
    let small : ltb page (2 ^ 32) ≡ true = ground (arith, h.0) in λ w room. rw small (both w room)

indirect_writes-Writes :
    (pages : List PageNumber)
    → AllRepresentable pages
    → Writes (indirect_writes pages) (1 ∷ reference_bytes pages)
unfolding indirect_writes write_u8
indirect_writes-Writes pages h =
    then-Writes (to_le_bytes 1 1) (reference_bytes pages)
      (on_error-Writes encoding (to_le_bytes 1 1) (write_exact-Writes (to_le_bytes 1 1)))
      (write_references-Writes pages h)

-- Calls of `next_reference` until it gives none, at most `fuel` of them.
unfoldable pub collect :
    ℕ → List ℕ → Op AllocationMapError (MapReferenceCursor × ResourceBudget) (List ℕ)
collect zero bytes s = done [] s
collect (suc fuel) bytes s = continue (next_reference bytes s) λ next s'. elim next [
  | none ↦ done [] s'
  | some page ↦ continue (collect fuel bytes s') (λ more end. done (page ∷ more) end)
]

-- The cursor over all of some bytes, behind a number of them.
abbrev pub cursor_at : List ℕ → ℕ → MapReferenceCursor
cursor_at bytes offset = record {
  references = record { start = 0; end = length bytes };
  offset = offset;
}

-- What `encode_indirect_references` gives for the outcome of its writes.
abbrev with_record_len :
    Result Error ByteCount
    → Outcome UsageMapWriteError (List ℕ × ResourceBudget) (Unit {0})
    → Outcome UsageMapWriteError (List ℕ × ResourceBudget) ByteCount
with_record_len n o = continue o (λ _ s. lift (map_err encoding n) s)

layout_of_indirect :
    (pages : List PageNumber)
    → layout_of (1 ∷ reference_bytes pages)
      ≡ ok (indirect_layout (record { start = 1; end = length (1 ∷ reference_bytes pages) }))
unfolding layout_of
layout_of_indirect pages = ground (arith, length-reference_bytes pages)

map_of_indirect :
    (pages : List PageNumber)
    → map_of
        (1 ∷ reference_bytes pages)
        (indirect_layout (record { start = 1; end = length (1 ∷ reference_bytes pages) }))
      ≡ ok (indirect (reference_bytes pages))
unfolding map_of
map_of_indirect pages = ground (arith, slice_behind (1 ∷ []) (reference_bytes pages))

encode_indirect-record :
    (pages : List PageNumber) (output : List ℕ) (budget : ResourceBudget)
    → AllRepresentable pages
    → length output < 2 ^ 64
    → HasU64Limits budget.limits
    → 1 + 4 * length pages ≤ length output
    → Fits (encoded (1 + 4 * length pages)) budget
    → encode_indirect_references pages (output, budget)
      ≡ done (1 + 4 * length pages) (
        copy_at output 0 (1 ∷ reference_bytes pages),
        spend (encoded (1 + 4 * length pages)) budget,
      )
unfolding encode_indirect_references indirect_record_len
encode_indirect-record pages output budget h small u fits allowed =
    let len : length (1 ∷ reference_bytes pages) ≡ 1 + 4 * length pages =
      omega (arith, length-reference_bytes pages) in
    let out =
      on_output-Writes (indirect_writes pages) (1 ∷ reference_bytes pages) output budget
        (indirect_writes-Writes pages h) small u (rw len fits) (rw len allowed) in
    let whole : indirect_record_len (length pages) ≡ ok (1 + 4 * length pages) = ground arith in
    ap (with_record_len (indirect_record_len (length pages))) out ∙ rw whole (rw len refl)

indirect_record-map :
    (pages : List PageNumber) (b : ResourceBudget)
    → HasU64Limits b.limits
    → Fits (work 1) b
    → decode_allocation_map (1 ∷ reference_bytes pages) b
      ≡ done (indirect (reference_bytes pages)) (spend (work 1) b)
unfolding decode_allocation_map
indirect_record-map pages b u h =
    rw (decode_paid (1 ∷ reference_bytes pages) b u h)
      (rw (layout_of_indirect pages) (rw (map_of_indirect pages) refl))

-- The four bytes behind some others are the next reference.
slice_reference :
    (front rest : List ℕ) (page : PageNumber)
    → slice (front ++ (to_le_bytes 4 page ++ rest)) (length front) (length front + 4)
      ≡ to_le_bytes 4 page
unfolding slice
slice_reference [] rest page = refl
slice_reference (x ∷ front) rest page =
    let e : suc (length front) + 4 - suc (length front) ≡ length front + 4 - length front =
      omega arith in
    rw e (slice_reference front rest page)

module _ (bytes : List ℕ) (small : length bytes < 2 ^ 64) where
  next_reference_end :
      (b : ResourceBudget)
      → next_reference bytes (cursor_at bytes (length bytes), b)
        ≡ done none (cursor_at bytes (length bytes), b)
  unfolding next_reference
  next_reference_end b = ground arith

  next_reference_here :
      (offset : ℕ) (page : PageNumber) (b : ResourceBudget)
      → offset + 4 ≤ length bytes
      → slice bytes offset (offset + 4) ≡ to_le_bytes 4 page
      → page < 2 ^ 32
      → HasU64Limits b.limits
      → Fits (items 1) b
      → next_reference bytes (cursor_at bytes offset, b)
        ≡ done (some page) (cursor_at bytes (offset + 4), spend (items 1) b)
  unfolding next_reference charge
  next_reference_here offset page b inside here lt u h =
      let paid = charge-Fits (items 1) b u h in
      let four : slice (to_le_bytes 4 page) 0 4 ≡ to_le_bytes 4 page = slice_reference [] [] page in
      let value = from_le_bytes-to_le_bytes 4 page lt in ground (arith, paid, here, four, value)

collect_here :
    (fuel : ℕ) (bytes : List ℕ) (page : ℕ) (more : List ℕ)
    (s s' end : MapReferenceCursor × ResourceBudget)
    → next_reference bytes s ≡ done (some page) s'
    → collect fuel bytes s' ≡ done more end
    → collect (suc fuel) bytes s ≡ done (page ∷ more) end
unfolding collect
collect_here fuel bytes page more s s' end now rest = rw now (rw rest refl)

collect_end :
    (fuel : ℕ) (bytes : List ℕ) (s s' : MapReferenceCursor × ResourceBudget)
    → next_reference bytes s ≡ done none s'
    → collect (suc fuel) bytes s ≡ done [] s'
unfolding collect
collect_end fuel bytes s s' now = rw now refl

collect_from :
    (pages : List PageNumber) (front : List ℕ) (b : ResourceBudget)
    → AllRepresentable pages
    → length (front ++ reference_bytes pages) < 2 ^ 64
    → HasU64Limits b.limits
    → Fits (items (length pages)) b
    → collect
        (suc (length pages))
        (front ++ reference_bytes pages)
        (cursor_at (front ++ reference_bytes pages) (length front), b)
      ≡ done pages (
        cursor_at (front ++ reference_bytes pages) (length (front ++ reference_bytes pages)),
        spend (items (length pages)) b,
      )
collect_from [] front b all small u h =
    let nothing : spend (items 0) b ≡ b = ground arith in
    let all_of_it = append-nil front in
    let last = next_reference_end front (rw all_of_it at small) b in
    rw all_of_it (rw nothing (collect_end 0 front _ _ last))
collect_from (page ∷ pages) front b all small u h =
    let four = to_le_bytes 4 page in
    let bytes = front ++ (four ++ reference_bytes pages) in
    let whole = length-append front (four ++ reference_bytes pages) in
    let behind : length (front ++ four) ≡ length front + 4 = length-append front four in
    let assoc = append_assoc front four (reference_bytes pages) in
    let one : Fits (items 1) b = (omega (arith, h.0), omega (arith, h.1)) in
    let more : Fits (items (length pages)) (spend (items 1) b) =
      (omega (arith, h.0), omega (arith, h.1)) in
    let rest =
      collect_from pages (front ++ four) (spend (items 1) b) all.1 (rw assoc small) u more in
    let now =
      next_reference_here bytes small (length front) page b (omega (arith, whole))
        (slice_reference front (reference_bytes pages) page) all.0 u one in
    let paid : spend (items (length pages)) (spend (items 1) b)
        ≡ spend (items (suc (length pages))) b =
      ground arith in
    rw (← paid) (
      collect_here (suc (length pages)) bytes page pages _ _ _ now
        (rw behind at (rw assoc at rest)))

-- For references that fit four bytes each, and budgets with `u64` limits that allow the record, its
-- decoding and one item for each reference: an output slice that is long enough takes the record,
-- whose length is returned; the decoder finds an indirect map in those bytes, and calls of
-- `next_reference` on it until it gives none return the references in order.
pub collect-encode_indirect_references :
    (pages : List PageNumber) (output : List ℕ) (budget b : ResourceBudget)
    → AllRepresentable pages
    → length output < 2 ^ 64
    → HasU64Limits budget.limits
    → 1 + 4 * length pages ≤ length output
    → Fits (encoded (1 + 4 * length pages)) budget
    → HasU64Limits b.limits
    → Fits (work 1) b
    → Fits (items (length pages)) b
    → (output' : List ℕ) × (paid : ResourceBudget) × (payload : List ℕ)
      × (encode_indirect_references pages (output, budget)
          ≡ done (1 + 4 * length pages) (output', paid))
      × (decode_allocation_map (slice output' 0 (1 + 4 * length pages)) b
          ≡ done (indirect payload) (spend (work 1) b))
      × (collect (suc (length pages)) payload (cursor_at payload 0, b)
          ≡ done pages (cursor_at payload (length payload), spend (items (length pages)) b))
collect-encode_indirect_references pages output budget b all small u fits allowed v one each =
    let len = length-reference_bytes pages in
    let fits' : 0 + length (1 ∷ reference_bytes pages) ≤ length output = omega (arith, len) in
    let same : 0 + length (1 ∷ reference_bytes pages) ≡ 1 + 4 * length pages = omega (arith, len) in
    let back = slice-copy_at output 0 (1 ∷ reference_bytes pages) fits' in
    (
      copy_at output 0 (1 ∷ reference_bytes pages),
      spend (encoded (1 + 4 * length pages)) budget,
      reference_bytes pages,
      encode_indirect-record pages output budget all small u fits allowed,
      rw (rw same at back) (indirect_record-map pages b v one),
      collect_from pages [] b all (omega (arith, len)) v each,
    )
