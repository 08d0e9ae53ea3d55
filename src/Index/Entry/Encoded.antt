-- ===== src/Index/Entry/Encoded.antt =====
-- The record that `encode` makes: its key has the shape of the fields, and its end is the row's locator.
use mathlib.Core.List.{append-nil}
use jet3_rs.Common.{
  ℕ, ◌-◌, ◌*◌, ◌≤◌, ◌≡◌, sym, ap, ◌∙◌, arith, ltb, leb, if◌then◌else◌, Bool, false, not, ◌&&◌,
  Bool-cases, Option, none, some, List, [], ◌++◌, length, replicate, inl, inr,
}
use jet3_rs.Common.Results.{
  ok, Outcome, done, lift, refuse_if, on_error, continue-eq_done, lift-eq_done, on_error-eq_done,
  refuse_if-eq_done, return, throw,
}
use jet3_rs.Format.Error.{integer_conversion, io, IoErrorKind}
use jet3_rs.Format.Offset.{ByteCount}
use jet3_rs.Format.Resource.{ResourceBudget, charge_items, charge_work_units, charge_allocation}
use jet3_rs.Row.Directory.{RowLocator}
use jet3_rs.Row.Value.{RowValue}
use jet3_rs.Index.Key.Binary.{shorten}
use jet3_rs.Index.Key.Scalar.{TextKeys}
use jet3_rs.Index.Entry.{
  ScalarIndexField, IndexNullPolicy, EntryError, field_count, encoding, null_required, is_required,
  is_ignore_all_null, RecordBytes, inline, wide, record_bytes, bytes_of, inline_bytes,
  ScalarIndexEntry, RawKey, add_fields, no_key, locator_suffix, finish, encode, max_fields,
}

returned :
    {A : Type 0} {S : Type 0} {x y : A} {s s' : S}
    → ◌≡◌ {A = Outcome EntryError S (Option A)} (done (some x) s) (done (some y) s')
    → x ≡ y
returned h = cc

nothing_returned :
    {A : Type 0} {S : Type 0} {y : A} {s s' : S}
    → ◌≡◌ {A = Outcome EntryError S (Option A)} (done none s) (done (some y) s')
    → ⊥
nothing_returned h = cc

wide_record :
    (reserves : ByteCount → Bool) (raw : List ℕ) (s s' : ResourceBudget) (r : RecordBytes)
    → (if reserves (length raw)
          then return (wide raw)
          else throw (io "reserve wide index record" IoErrorKind.out_of_memory))
        s
      ≡ done r s'
    → bytes_of r ≡ raw
wide_record reserves raw s s' r h = elim (Bool-cases (reserves (length raw))) [
  | inl granted ↦ let e : wide raw ≡ r = ground arith in ap bytes_of (sym e)
  | inr refused ↦ absurd (ground arith)
]

-- The bytes of a record are those given, with or without filling.
record_bytes-starts :
    (reserves : ByteCount → Bool) (raw : List ℕ) (s s' : ResourceBudget) (r : RecordBytes)
    → record_bytes reserves raw s ≡ done r s'
    → (pad : List ℕ) × (bytes_of r ≡ raw ++ pad)
unfolding record_bytes
record_bytes-starts reserves raw s s' r h = elim (Bool-cases (leb (length raw) inline_bytes)) [
  | inl small ↦
      let h' = rw small at h in
      let e : inline (raw ++ replicate (inline_bytes - length raw) 0) ≡ r = ground (arith, h') in
      (replicate (inline_bytes - length raw) 0, ap bytes_of (sym e))
  | inr large ↦
      let h' = rw large at h in
      let (_, s1, charged, h1) = continue-eq_done (charge_allocation (length raw) s) _ h' in
      ([], wide_record reserves raw s1 s' r h1 ∙ sym (append-nil raw))
]

-- What an entry is made of.
pub record IsEntry (raw : RawKey) (row : RowLocator) (e : ScalarIndexEntry) : Type 0 where
  pub pad : List ℕ
  pub bytes : bytes_of e.bytes ≡ (shorten raw.key ++ locator_suffix row) ++ pad
  pub key_len : e.key_len ≡ length (shorten raw.key)
  pub has_null : e.has_null ≡ raw.has_null

finish-IsEntry :
    (reserves : ByteCount → Bool) (raw : RawKey) (row : RowLocator) (s s' : ResourceBudget)
    (e : ScalarIndexEntry)
    → finish reserves raw row s ≡ done (some e) s'
    → IsEntry raw row e
unfolding finish
finish-IsEntry reserves raw row s s' e h =
    let (_, s1, charged, h1) =
      continue-eq_done (on_error _ (charge_work_units (length raw.key * 9) s)) _ h in
    let (bytes, s2, built, h2) =
      continue-eq_done
        (on_error _ (record_bytes reserves (shorten raw.key ++ locator_suffix row) s1)) _ h1 in
    let (pad, starts) =
      record_bytes-starts reserves (shorten raw.key ++ locator_suffix row) s1 s2 bytes
        (on_error-eq_done _ _ built) in
    let made : record { bytes = bytes; key_len = length (shorten raw.key); has_null = raw.has_null }
        ≡ e =
      returned h2 in
    record {
      pad = pad;
      bytes = ap (λ x. bytes_of x.bytes) (sym made) ∙ starts;
      key_len = ap (λ x. x.key_len) (sym made);
      has_null = ap (λ x. x.has_null) (sym made);
    }

-- What `encode` has checked before it makes an entry.
pub record IsEncoded (texts : TextKeys) (fields : List ScalarIndexField) (values : List RowValue)
    (policy : IndexNullPolicy) (row : RowLocator) (e : ScalarIndexEntry) : Type 0 where
  pub raw : RawKey
  pub added : add_fields texts values fields no_key ≡ ok raw
  pub some_field : 1 ≤ length fields
  pub few_fields : length fields ≤ max_fields
  pub near : row.page ≤ 0xff_ffff
  pub nulls_allowed : (raw.has_null && is_required policy) ≡ false
  pub not_all_null : (raw.all_null && is_ignore_all_null policy) ≡ false
  pub entry : IsEntry raw row e

pub encode-IsEncoded :
    (texts : TextKeys) (reserves : ByteCount → Bool) (fields : List ScalarIndexField)
    (values : List RowValue) (policy : IndexNullPolicy) (row : RowLocator) (s s' : ResourceBudget)
    (e : ScalarIndexEntry)
    → encode texts reserves fields values policy row s ≡ done (some e) s'
    → IsEncoded texts fields values policy row e
unfolding encode
encode-IsEncoded texts reserves fields values policy row s s' e h =
    let (_, s1, charged, h1) = continue-eq_done (on_error encoding (charge_items 1 s)) _ h in
    let (_, s2, counted, h2) =
      continue-eq_done
        (refuse_if (not (leb 1 (length fields) && leb (length fields) max_fields))
          (field_count (length fields)) s1)
        _ h1 in
    let (_, s3, paged, h3) =
      continue-eq_done
        (refuse_if (ltb 0x00ff_ffff row.page)
          (encoding (integer_conversion row.page "24-bit index row page")) s2)
        _ h2 in
    let (raw, s4, lifted, h4) =
      continue-eq_done (lift (add_fields texts values fields no_key) s3) _ h3 in
    let (_, s5, allowed, h5) =
      continue-eq_done (refuse_if (raw.has_null && is_required policy) null_required s4) _ h4 in
    let count_lem = (refuse_if-eq_done _ _ counted).0 in
    let page_lem = (refuse_if-eq_done _ _ paged).0 in
    elim (Bool-cases (raw.all_null && is_ignore_all_null policy)) [
      | inl skipped ↦ let h6 = rw skipped at h5 in absurd (nothing_returned {s = s5} h6)
      | inr kept ↦ record {
        raw = raw;
        added = (lift-eq_done _ lifted).0;
        some_field = ground arith;
        few_fields = ground arith;
        near = ground arith;
        nulls_allowed = (refuse_if-eq_done _ _ allowed).0;
        not_all_null = kept;
        entry = finish-IsEntry reserves raw row s5 s' e (rw kept at h5);
      }
    ]
