-- ===== src/Index/Entry.antt =====
-- crates/jet3/src/index/entry.rs: the record of one row in an index, a key and the locator of the row, and
-- the check of the shape of a key.
pub mod Parts
pub mod Encoded
pub mod Shape
use jet3_rs.Common.{
  ℕ, zero, suc, ◌+◌, ◌-◌, ◌*◌, ◌^◌, ◌≤◌, ◌<◌, ltb, leb, ◌==◌, if◌then◌else◌, Bool, true, false, not,
  ◌||◌, ◌&&◌, Option, none, some, List, [], ◌∷◌, ◌++◌, length, take, drop, replicate, get_elem?,
  min,
}
use jet3_rs.Common.Bytes.{byte_at}
use jet3_rs.Common.Results.{
  Result, ok, err, Op, ◌>>=◌, ◌>>◌, lift, return, throw, refuse_if, on_error, ok_or, and_then,
}
use jet3_rs.Format.Error.{Error, integer_conversion, io, IoErrorKind}
use jet3_rs.Format.Offset.{ByteCount}
use jet3_rs.Format.Resource.{ResourceBudget, charge_items, charge_work_units, charge_allocation}
use jet3_rs.Row.Directory.{RowLocator}
use jet3_rs.Row.Value.{RowValue}
use jet3_rs.Index.Order.{to_be_bytes}
use jet3_rs.Index.Key.{IndexDirection, KeyPrefix, complete, partial}
use jet3_rs.Index.Key.Binary.{max_key_bytes, shorten}
use jet3_rs.Index.Key.Scalar.{ScalarKeyType, TextKeys, is_null, maximum_length}
use jet3_rs.Index.Key.Scalar

abbrev pub max_fields : ℕ
max_fields = 10

abbrev pub locator_bytes : ℕ
locator_bytes = 4

abbrev pub inline_bytes : ℕ
inline_bytes = 22

pub record ScalarIndexField : Type 0 where
  pub column : ℕ
  pub direction : IndexDirection
  pub kind : ScalarKeyType

-- Of the crate's public types.
pub data IndexNullPolicy : Type 0 where
  include ignore_all_null required : IndexNullPolicy

abbrev pub is_required : IndexNullPolicy → Bool
is_required required = true
is_required policy = false

abbrev pub is_ignore_all_null : IndexNullPolicy → Bool
is_ignore_all_null ignore_all_null = true
is_ignore_all_null policy = false

pub data EntryError : Type 0 where
  field_count : (actual : ℕ) → EntryError
  missing_column : (column : ℕ) → EntryError
  unsupported_value : (column : ℕ) → ScalarKeyType → EntryError
  null_required : EntryError
  encoding : Error → EntryError

pub data RecordBytes : Type 0 where
  inline wide : List ℕ → RecordBytes

-- `RecordBytes::new`; `reserves` is the allocator's answer to `try_reserve_exact`.
unfoldable pub record_bytes : (ByteCount → Bool) → List ℕ → Op Error ResourceBudget RecordBytes
record_bytes reserves raw =
    if leb (length raw) inline_bytes
    then return (inline (raw ++ replicate (inline_bytes - length raw) 0))
    else (do
      charge_allocation (length raw)
      if reserves (length raw)
          then return (wide raw)
          else throw (io "reserve wide index record" IoErrorKind.out_of_memory))

abbrev pub bytes_of : RecordBytes → List ℕ
bytes_of (inline bytes) = bytes
bytes_of (wide bytes) = bytes

abbrev pub maximum_lengths : List ScalarIndexField → ℕ
maximum_lengths [] = 0
maximum_lengths (field ∷ rest) = maximum_length field.kind + maximum_lengths rest

pub record ScalarIndexEntry : Type 0 where
  pub bytes : RecordBytes
  pub key_len : ℕ
  pub has_null : Bool

-- The loop of `key_shape`. Of its counters `all_null` is only used at the end.
unfoldable pub key_shape :
    TextKeys
    → List ScalarIndexField
    → IndexNullPolicy
    → List ℕ
    → (shortened : Bool) → (consumed : ℕ) → (all_null : Bool) → Bool
key_shape texts [] policy key shortened consumed all_null =
    not shortened && (length key == 0 && not (all_null && is_ignore_all_null policy))
key_shape texts (field ∷ fields) policy key shortened consumed all_null =
    elim (Scalar.prefix texts field.kind key field.direction) [
      | none ↦ false
      | some (partial maximum) ↦
          shortened && ltb max_key_bytes (consumed + maximum + maximum_lengths fields)
      | some (complete n) ↦
          if ltb (length key) n || (n == 1 && is_required policy)
          then false
          else key_shape texts fields policy (drop n key) shortened (consumed + n)
              (all_null && n == 1)
    ]

unfoldable pub valid_key_shape : TextKeys → List ScalarIndexField → IndexNullPolicy → List ℕ → Bool
valid_key_shape texts fields policy key =
    if not (leb 1 (length fields) && leb (length fields) max_fields)
      || ltb max_key_bytes (length key)
    then false
    else key_shape texts fields policy key false 0 true
      || (length key == max_key_bytes && key_shape texts fields policy (take 253 key) true 0 true)

-- The raw key, and what the loop of `encode` keeps beside it.
pub record RawKey : Type 0 where
  pub key : List ℕ
  pub has_null : Bool
  pub all_null : Bool

-- One round of that loop.
unfoldable pub add_field :
    TextKeys → List RowValue → ScalarIndexField → RawKey → Result EntryError RawKey
add_field texts values field raw =
    and_then (ok_or (get_elem? values field.column) (missing_column field.column)) λ value.
      let absent = is_null field.kind value in
      and_then
        (ok_or (Scalar.encode texts field.kind value field.direction)
          (unsupported_value field.column field.kind))
        λ component. ok (record {
          key = raw.key ++ component;
          has_null = raw.has_null || absent;
          all_null = raw.all_null && absent;
        })

unfoldable pub add_fields :
    TextKeys → List RowValue → List ScalarIndexField → RawKey → Result EntryError RawKey
unfolding add_field
add_fields texts values [] raw = ok raw
add_fields texts values (field ∷ fields) raw =
    and_then (add_field texts values field raw) λ next. add_fields texts values fields next

abbrev pub no_key : RawKey
no_key = record { key = []; has_null = false; all_null = true }

-- `(page as u32).to_be_bytes()[1..]` and the slot.
abbrev pub locator_suffix : RowLocator → List ℕ
locator_suffix row = drop 1 (to_be_bytes 4 row.page) ++ (row.slot ∷ [])

-- The part of `encode` behind the checks of nulls.
unfoldable pub finish :
    (ByteCount → Bool)
    → RawKey
    → RowLocator
    → Op EntryError ResourceBudget (Option ScalarIndexEntry)
finish reserves raw row = do
  λ s. on_error encoding (charge_work_units (length raw.key * 9) s)
  let key = shorten raw.key
  bytes ← λ s. on_error encoding (record_bytes reserves (key ++ locator_suffix row) s)
  return (some (record { bytes = bytes; key_len = length key; has_null = raw.has_null }))

unfoldable pub encode :
    TextKeys
    → (ByteCount → Bool)
    → List ScalarIndexField
    → List RowValue
    → IndexNullPolicy
    → RowLocator
    → Op EntryError ResourceBudget (Option ScalarIndexEntry)
encode texts reserves fields values policy row = do
  λ s. on_error encoding (charge_items 1 s)
  refuse_if (not (leb 1 (length fields) && leb (length fields) max_fields))
      (field_count (length fields))
  refuse_if (ltb 0x00ff_ffff row.page)
      (encoding (integer_conversion row.page "24-bit index row page"))
  raw ← lift (add_fields texts values fields no_key)
  refuse_if (raw.has_null && is_required policy) null_required
  if raw.all_null && is_ignore_all_null policy then return none else finish reserves raw row

unfoldable pub key_of : ScalarIndexEntry → List ℕ
key_of e = take e.key_len (bytes_of e.bytes)

unfoldable pub record_of : ScalarIndexEntry → List ℕ
record_of e = take (e.key_len + locator_bytes) (bytes_of e.bytes)

unfoldable pub locator : ScalarIndexEntry → RowLocator
locator e =
    let bytes = drop e.key_len (bytes_of e.bytes) in
    record {
      page = 65536 * byte_at bytes 0 + 256 * byte_at bytes 1 + byte_at bytes 2;
      slot = byte_at bytes 3;
    }
