-- ===== src/Alloc/Encoder/Records.antt =====
-- What the encoders write, and that the decoder of crates/jet3/src/alloc/map.rs reads it back.
use jet3_rs.Common.{
  ℕ, suc, ◌+◌, ◌-◌, ◌^◌, ◌≤◌, ◌<◌, ◌≡◌, refl, arith, ap, ◌∙◌, List, [], ◌∷◌, ◌++◌, length, slice,
  slice-copy_at, copy_at, take,
}
use jet3_rs.Common.Bytes.{to_le_bytes, from_le_bytes-to_le_bytes}
use jet3_rs.Common.Results.{continue, Outcome, done, fail, lift, ok, on_error, Op}
use jet3_rs.Format.Error.{Error}
use jet3_rs.Format.Resource.{ResourceBudget}
use jet3_rs.Format.Resource.Charges.{encoded, work, charge}
use jet3_rs.Format.Resource.Accounting.{Fits, spend, HasU64Limits, charge-Fits}
use jet3_rs.Format.Offset.{ByteCount}
use jet3_rs.Format.Writer.{BinaryWriter, new_writer, write_u8, write_u32_le}
use jet3_rs.Format.Writer.Sequences.{HasRoom, Writes, write_exact-Writes, then-Writes}
use jet3_rs.Alloc.Map.{
  inline_layout, inline, layout_of, map_of, decode_allocation_map, decode_allocation_map_layout,
}
use jet3_rs.Alloc.Encoder.{
  InlineUsageMapEncoder, UsageMapWriteError, encoding, on_output, inline_writes, encode_inline,
  encoded_len,
}

-- The bytes of an inline record.
abbrev pub inline_record : InlineUsageMapEncoder → List ℕ
inline_record e = to_le_bytes 1 0 ++ (to_le_bytes 4 e.start_page ++ e.bitmap)

inline_writes-Writes : (e : InlineUsageMapEncoder) → Writes (inline_writes e) (inline_record e)
unfolding inline_writes write_u8 write_u32_le
inline_writes-Writes e =
    then-Writes (to_le_bytes 1 0) (to_le_bytes 4 e.start_page ++ e.bitmap)
      (write_exact-Writes (to_le_bytes 1 0))
      (then-Writes (to_le_bytes 4 e.start_page) e.bitmap
        (write_exact-Writes (to_le_bytes 4 e.start_page)) (write_exact-Writes e.bitmap))

-- A new writer over an output slice has room for what the slice and the budget have room for.
new_writer-HasRoom :
    (output : List ℕ) (budget : ResourceBudget) (n : ℕ)
    → length output < 2 ^ 64
    → HasU64Limits budget.limits
    → n ≤ length output
    → Fits (encoded n) budget
    → HasRoom (new_writer output budget) n
new_writer-HasRoom output budget n small u fits allowed = record {
  writer = record {
    same_capacity = refl;
    inside = omega arith;
    capacity_u64 = small;
    limits_u64 = u;
  };
  fits = omega arith;
  allowed = allowed;
}

-- The slice and the budget after the operation of a writer.
abbrev output_after {ℓ} :
    {E : Type ℓ}
    → Outcome E BinaryWriter (Unit {0})
    → Outcome E (List ℕ × ResourceBudget) (Unit {0})
output_after o = elim o [
  | done a w ↦ done a (w.output, w.budget)
  | fail e w ↦ fail e (w.output, w.budget)
]

-- An operation that writes some bytes leaves them at the front of the slice.
pub on_output-Writes {ℓ} :
    {E : Type ℓ} (m : Op E BinaryWriter (Unit {0})) (bytes output : List ℕ)
    (budget : ResourceBudget)
    → Writes m bytes
    → length output < 2 ^ 64
    → HasU64Limits budget.limits
    → length bytes ≤ length output
    → Fits (encoded (length bytes)) budget
    → on_output m (output, budget)
      ≡ done tt (copy_at output 0 bytes, spend (encoded (length bytes)) budget)
on_output-Writes m bytes output budget writes small u fits allowed =
    let e =
      writes (new_writer output budget)
        (new_writer-HasRoom output budget (length bytes) small u fits allowed) in
    ap output_after e

-- The decoder on a complete record, with a budget for one unit of work.
pub decode_paid :
    (bytes : List ℕ) (b : ResourceBudget)
    → HasU64Limits b.limits
    → Fits (work 1) b
    → decode_allocation_map_layout bytes b ≡ lift (layout_of bytes) (spend (work 1) b)
unfolding decode_allocation_map_layout charge
decode_paid bytes b u h = let paid = charge-Fits (work 1) b u h in rw paid refl

pub take_all : (xs : List ℕ) → take (length xs) xs ≡ xs
take_all [] = refl
take_all (x ∷ xs) = ap (λ t. x ∷ t) (take_all xs)

pub slice_behind : (ys zs : List ℕ) → slice (ys ++ zs) (length ys) (length (ys ++ zs)) ≡ zs
unfolding slice
slice_behind [] zs = let e : length zs - 0 ≡ length zs = omega arith in rw e (take_all zs)
slice_behind (y ∷ ys) zs =
    let e : suc (length (ys ++ zs)) - suc (length ys) ≡ length (ys ++ zs) - length ys =
      omega arith in
    rw e (slice_behind ys zs)

layout_of_inline :
    (e : InlineUsageMapEncoder)
    → e.start_page < 2 ^ 32
    → layout_of (inline_record e)
      ≡ ok (inline_layout e.start_page (record { start = 5; end = length (inline_record e) }))
unfolding layout_of slice
layout_of_inline e small = ground (arith, from_le_bytes-to_le_bytes 4 e.start_page small)

map_of_inline :
    (e : InlineUsageMapEncoder)
    → map_of
        (inline_record e)
        (inline_layout e.start_page (record { start = 5; end = length (inline_record e) }))
      ≡ ok (inline e.start_page e.bitmap)
unfolding map_of
map_of_inline e =
    ground (arith, slice_behind (to_le_bytes 1 0 ++ to_le_bytes 4 e.start_page) e.bitmap)

inline_record-map :
    (e : InlineUsageMapEncoder) (b : ResourceBudget)
    → e.start_page < 2 ^ 32
    → HasU64Limits b.limits
    → Fits (work 1) b
    → decode_allocation_map (inline_record e) b
      ≡ done (inline e.start_page e.bitmap) (spend (work 1) b)
unfolding decode_allocation_map
inline_record-map e b small u h =
    rw (decode_paid (inline_record e) b u h)
      (rw (layout_of_inline e small) (rw (map_of_inline e) refl))

-- What `encode_inline` gives for the outcome of its writes.
abbrev with_length :
    ByteCount
    → Outcome Error (List ℕ × ResourceBudget) (Unit {0})
    → Outcome UsageMapWriteError (List ℕ × ResourceBudget) ByteCount
with_length n o = continue (on_error encoding o) (λ _ s. done n s)

encode_inline-record :
    (e : InlineUsageMapEncoder) (output : List ℕ) (budget : ResourceBudget)
    → length output < 2 ^ 64
    → HasU64Limits budget.limits
    → 5 + length e.bitmap ≤ length output
    → Fits (encoded (5 + length e.bitmap)) budget
    → encode_inline e (output, budget)
      ≡ done
          (5 + length e.bitmap)
          (copy_at output 0 (inline_record e), spend (encoded (5 + length e.bitmap)) budget)
unfolding encode_inline encoded_len
encode_inline-record e output budget small u fits allowed =
    let len : length (inline_record e) ≡ 5 + length e.bitmap = ground arith in
    let out =
      on_output-Writes (inline_writes e) (inline_record e) output budget (inline_writes-Writes e)
        small u (rw len fits) (rw len allowed) in
    let short : encoded_len e ≡ 5 + length e.bitmap = ground arith in
    ap (with_length (encoded_len e)) out ∙ rw short (rw len refl)

-- For an inline map and a budget with `u64` limits that allows the record, an output slice that is
-- long enough takes the record, whose length is returned: the decoder, with a budget for one unit
-- of work, then reads the first page and the bitmap back from those bytes.
pub decode_allocation_map-encode_inline :
    (e : InlineUsageMapEncoder) (output : List ℕ) (budget b : ResourceBudget)
    → e.start_page < 2 ^ 32
    → length output < 2 ^ 64
    → HasU64Limits budget.limits
    → 5 + length e.bitmap ≤ length output
    → Fits (encoded (5 + length e.bitmap)) budget
    → HasU64Limits b.limits
    → Fits (work 1) b
    → (output' : List ℕ) × (paid : ResourceBudget) × (encode_inline e (output, budget)
        ≡ done (5 + length e.bitmap) (output', paid))
      × (decode_allocation_map (slice output' 0 (5 + length e.bitmap)) b
          ≡ done (inline e.start_page e.bitmap) (spend (work 1) b))
decode_allocation_map-encode_inline e output budget b page small u fits allowed v h =
    let len : length (inline_record e) ≡ 5 + length e.bitmap = ground arith in
    let fits' : 0 + length (inline_record e) ≤ length output = ground arith in
    let back = slice-copy_at output 0 (inline_record e) fits' in
    let same : 0 + length (inline_record e) ≡ 5 + length e.bitmap = ground arith in
    (
      copy_at output 0 (inline_record e),
      spend (encoded (5 + length e.bitmap)) budget,
      encode_inline-record e output budget small u fits allowed,
      rw (rw same at back) (inline_record-map e b page v h),
    )
