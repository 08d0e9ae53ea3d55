-- ===== src/Index/Entry/Shape.antt =====
-- What an entry that `encode` makes tells: its key, its record and the locator of its row.
use mathlib.Core.List.{append_assoc}
use jet3_rs.Common.{
  ℕ, ◌+◌, ◌≤◌, ◌<◌, ◌≡◌, refl, sym, ◌∙◌, arith, ltb, leb, leb→le, Bool, true, false, not, ◌||◌,
  ◌&&◌, Bool-cases, some, List, ◌++◌, length, length-append, length-take, take, drop, inl, inr,
}
use jet3_rs.Common.Bytes.{to_le_bytes}
use jet3_rs.Common.Pieces.{take-append_whole, drop-append_whole}
use jet3_rs.Common.Results.{done}
use jet3_rs.Format.Offset.{ByteCount}
use jet3_rs.Format.Resource.{ResourceBudget}
use jet3_rs.Row.Directory.{RowLocator}
use jet3_rs.Row.Value.{RowValue}
use jet3_rs.Index.Key.Binary.{max_key_bytes, shorten, checksum_of}
use jet3_rs.Index.Key.Scalar.{TextKeys}
use jet3_rs.Index.Entry.{
  ScalarIndexField, IndexNullPolicy, is_required, is_ignore_all_null, ScalarIndexEntry, key_shape,
  valid_key_shape, RawKey, locator_suffix, encode, key_of, record_of, locator, max_fields,
}
use jet3_rs.Index.Entry.Parts.{
  AllTyped, AllPlain, Parts, add_fields-Parts, key_shape-Parts, key_shape-cut_Parts,
}
use jet3_rs.Index.Entry.Encoded.{IsEntry, encode-IsEncoded}

length-shorten : (key : List ℕ) → length (shorten key) ≤ max_key_bytes
unfolding shorten
length-shorten key = elim (Bool-cases (leb (length key) max_key_bytes)) [
  | inl short ↦ rw short (leb→le _ _ short)
  | inr wide ↦ rw wide (
      omega (
        arith,
        length-append {0} (take 253 key) (to_le_bytes 2 (checksum_of 0 (drop 253 key))),
        length-take {0} 253 key,
      ))
]

-- The key of an entry is the raw key, shortened where it is too long.
pub key_of-IsEntry :
    (raw : RawKey) (row : RowLocator) (e : ScalarIndexEntry)
    → IsEntry raw row e
    → key_of e ≡ shorten raw.key
unfolding key_of
key_of-IsEntry raw row e h =
    rw (h.bytes, append_assoc (shorten raw.key) (locator_suffix row) h.pad)
      (take-append_whole (shorten raw.key) (locator_suffix row ++ h.pad) e.key_len (sym h.key_len))

record_of-IsEntry :
    (raw : RawKey) (row : RowLocator) (e : ScalarIndexEntry)
    → IsEntry raw row e
    → record_of e ≡ shorten raw.key ++ locator_suffix row
unfolding record_of
record_of-IsEntry raw row e h = rw h.bytes (
    take-append_whole (shorten raw.key ++ locator_suffix row) h.pad (e.key_len + 4)
      (omega (arith, length-append {0} (shorten raw.key) (locator_suffix row), h.key_len)))

locator-IsEntry :
    (raw : RawKey) (row : RowLocator) (e : ScalarIndexEntry)
    → row.page ≤ 0xff_ffff
    → IsEntry raw row e
    → locator e ≡ row
unfolding locator
locator-IsEntry raw row e near h =
    rw (h.bytes, append_assoc (shorten raw.key) (locator_suffix row) h.pad)
      (rw
        (drop-append_whole (shorten raw.key) (locator_suffix row ++ h.pad) e.key_len
          (sym h.key_len))
        (ground arith))

-- An entry that `encode` makes gives back the locator of its row and has a key of at most 255 bytes,
-- and its record is that key with the four bytes of the locator behind it.
pub encode-locator :
    (texts : TextKeys) (reserves : ByteCount → Bool) (fields : List ScalarIndexField)
    (values : List RowValue) (policy : IndexNullPolicy) (row : RowLocator) (s s' : ResourceBudget)
    (e : ScalarIndexEntry)
    → encode texts reserves fields values policy row s ≡ done (some e) s'
    → (locator e ≡ row)
      × (length (key_of e) ≤ max_key_bytes)
      × (record_of e ≡ key_of e ++ locator_suffix row)
encode-locator texts reserves fields values policy row s s' e h =
    let made = encode-IsEncoded texts reserves fields values policy row s s' e h in
    let key_lem = key_of-IsEntry made.raw row e made.entry in
    (
      locator-IsEntry made.raw row e made.near made.entry,
      rw key_lem (length-shorten made.raw.key),
      rw key_lem (record_of-IsEntry made.raw row e made.entry),
    )

few_enough : (n : ℕ) → 1 ≤ n → n ≤ max_fields → not (leb 1 n && leb n max_fields) ≡ false
few_enough n some_field few = ground arith

fits : (n : ℕ) → leb n max_key_bytes ≡ true → ltb max_key_bytes n ≡ false
fits n h = ground arith

too_wide : (n : ℕ) → leb n max_key_bytes ≡ false → max_key_bytes < n
too_wide n h = ground arith

cut_length : (key : List ℕ) → leb (length key) max_key_bytes ≡ false → length (take 253 key) ≡ 253
cut_length key h = omega (arith, length-take {0} 253 key, too_wide (length key) h)

orb_true : (b : Bool) → b || true ≡ true
orb_true true = refl
orb_true false = refl

module _ (texts : TextKeys) (fields : List ScalarIndexField) (policy : IndexNullPolicy) where
  -- A raw key that fits is checked whole, and a longer one up to its checksum.
  valid_key_shape-shorten :
      (key : List ℕ) (has_null all_null : Bool)
      → Parts texts fields key has_null all_null
      → 1 ≤ length fields
      → length fields ≤ max_fields
      → (has_null && is_required policy) ≡ false
      → (all_null && is_ignore_all_null policy) ≡ false
      → valid_key_shape texts fields policy (shorten key) ≡ true
  unfolding valid_key_shape
  valid_key_shape-shorten key has_null all_null parts some_field few allowed kept =
      elim (Bool-cases (leb (length key) max_key_bytes)) [
        | inl short ↦
            let same : shorten key ≡ key = (unfold shorten in rw short) in
            let shape : key_shape texts fields policy key false 0 true ≡ true =
              key_shape-Parts texts policy fields key has_null all_null 0 true parts allowed
              ∙ rw kept in
            rw same (rw (few_enough (length fields) some_field few, fits (length key) short, shape))
        | inr wide ↦
            let sum = to_le_bytes 2 (checksum_of 0 (drop 253 key)) in
            let same : shorten key ≡ take 253 key ++ sum = (unfold shorten in rw wide) in
            let start : take 253 (take 253 key ++ sum) ≡ take 253 key =
              take-append_whole (take 253 key) sum 253 (cut_length key wide) in
            let cut =
              key_shape-cut_Parts texts policy fields key has_null all_null 253 0 true parts allowed
                (omega (arith, too_wide (length key) wide))
                (omega (arith, too_wide (length key) wide)) in
            let size : length (take 253 key ++ sum) ≡ 255 =
              omega (arith, length-append {0} (take 253 key) sum, cut_length key wide) in
            let most =
              orb_true (key_shape texts fields policy (take 253 key ++ sum) false 0 true) in
            rw same (rw (few_enough (length fields) some_field few, size, start, cut) most)
      ]

-- The key of every entry that `encode` makes from typed values, of which no field of the index holds a
-- text, passes `valid_key_shape` for its fields and its policy of nulls, also where the key has been
-- shortened.
pub encode-valid_key_shape :
    (texts : TextKeys) (reserves : ByteCount → Bool) (fields : List ScalarIndexField)
    (values : List RowValue) (policy : IndexNullPolicy) (row : RowLocator) (s s' : ResourceBudget)
    (e : ScalarIndexEntry)
    → AllPlain values fields
    → AllTyped values
    → encode texts reserves fields values policy row s ≡ done (some e) s'
    → valid_key_shape texts fields policy (key_of e) ≡ true
encode-valid_key_shape texts reserves fields values policy row s s' e plain typed h =
    let made = encode-IsEncoded texts reserves fields values policy row s s' e h in
    let (key, has_null, all_null, parts, key_lem, has_lem, all_lem) =
      add_fields-Parts texts values fields _ made.raw plain typed made.added in
    rw (key_of-IsEntry made.raw row e made.entry) (
      rw key_lem (
        valid_key_shape-shorten texts fields policy key has_null all_null parts made.some_field
          made.few_fields (rw has_lem at made.nulls_allowed) (rw all_lem at made.not_all_null)))
