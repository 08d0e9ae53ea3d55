-- ===== src/Index/Entry/Parts.antt =====
-- The raw key as the components of its fields, and what `key_shape` says of it, whole or cut.
use mathlib.Core.Path.{subst}
use mathlib.Core.List.{append-nil, append_assoc}
use jet3_rs.Common.{
  ℕ, zero, suc, ◌+◌, ◌-◌, ◌≤◌, ◌<◌, ◌≡◌, refl, sym, ap, ◌∙◌, arith, ◌==◌, Bool, true, false, not,
  ◌||◌, ◌&&◌, Option, none, some, List, [], ◌∷◌, ◌++◌, length, length-append, take, get_elem?,
}
use native.Mathlib.Decide.{dec_lt}
use jet3_rs.Common.Pieces.{drop-append_whole, take-append_part, take-append_more}
use jet3_rs.Common.Results.{ok, and_then-eq_ok, ok_or}
use jet3_rs.Row.Value.{RowValue}
use jet3_rs.Index.Key.Binary.{max_key_bytes}
use jet3_rs.Index.Key.Scalar.{ScalarKeyType, TextKeys, is_null, maximum_length}
use jet3_rs.Index.Key.Scalar
use jet3_rs.Row.Value.{IsRowValue}
use jet3_rs.Index.Key.Scalar.Recognised.{IsFramed, IsPlain}
use jet3_rs.Index.Key.Scalar.Framing.{encode-IsFramed}
use jet3_rs.Index.Entry.{
  ScalarIndexField, IndexNullPolicy, is_required, is_ignore_all_null, maximum_lengths, key_shape,
  RawKey, add_field, add_fields,
}

abbrev pub AllTyped : List RowValue → Type 0
AllTyped [] = Unit {0}
AllTyped (v ∷ vs) = IsRowValue v × AllTyped vs

abbrev TypedOption : Option RowValue → Type 0
TypedOption none = Unit {0}
TypedOption (some v) = IsRowValue v

typed_at :
    (values : List RowValue) (i : ℕ) {v : RowValue}
    → AllTyped values
    → get_elem? values i ≡ some v
    → IsRowValue v
typed_at [] i typed e = subst (λ o. TypedOption o) e tt
typed_at (x ∷ xs) zero typed e = subst (λ o. TypedOption o) e typed.0
typed_at (x ∷ xs) (suc i) typed e = typed_at xs i typed.1 e

-- The components of the fields in their order; some or all of the values are null.
pub data Parts (texts : TextKeys) : List ScalarIndexField → List ℕ → Bool → Bool → Type 0 where
  nothing : Parts texts [] [] false true
  part :
      {fields : List ScalarIndexField} {rest : List ℕ} {some_null rest_null : Bool}
      (field : ScalarIndexField) (value : RowValue) (component : List ℕ)
      → IsFramed texts field.direction field.kind value component
      → Parts texts fields rest some_null rest_null
      → Parts texts
          (field ∷ fields)
          (component ++ rest)
          (is_null field.kind value || some_null)
          (is_null field.kind value && rest_null)

-- The loop of `encode` puts the components of the fields behind what it has.
abbrev Added : TextKeys → List ScalarIndexField → RawKey → RawKey → Type 0
Added texts fields raw out =
    (key : List ℕ) × (has_null : Bool) × (all_null : Bool) × Parts texts fields key has_null
      all_null
    × (out.key ≡ raw.key ++ key)
    × (out.has_null ≡ raw.has_null || has_null)
    × (out.all_null ≡ raw.all_null && all_null)

ok_or-eq_ok {ℓ κ} :
    {E : Type ℓ} {A : Type κ} (o : Option A) (e : E) {a : A} → ok_or o e ≡ ok a → o ≡ some a
ok_or-eq_ok none e h = cc
ok_or-eq_ok (some a) e h = cc

-- What one round of the loop adds.
add_field-Source :
    (texts : TextKeys) (values : List RowValue) (field : ScalarIndexField) (raw next : RawKey)
    → add_field texts values field raw ≡ ok next
    → (value : RowValue) × (component : List ℕ) × (get_elem? values field.column ≡ some value)
      × (Scalar.encode texts field.kind value field.direction ≡ some component)
      × (next.key ≡ raw.key ++ component)
      × (next.has_null ≡ raw.has_null || is_null field.kind value)
      × (next.all_null ≡ raw.all_null && is_null field.kind value)
unfolding add_field
add_field-Source texts values field raw next h =
    let (value, found, h') = and_then-eq_ok (ok_or (get_elem? values field.column) _) _ h in
    let (component, built, h'') =
      and_then-eq_ok (ok_or (Scalar.encode texts field.kind value field.direction) _) _ h' in
    (value, component, ok_or-eq_ok _ _ found, ok_or-eq_ok _ _ built, cc, cc, cc)

-- No field holds a text.
abbrev IsPlainAt : ScalarKeyType → Option RowValue → Type 0
IsPlainAt kind none = Unit {0}
IsPlainAt kind (some value) = IsPlain kind value

abbrev pub AllPlain : List RowValue → List ScalarIndexField → Type 0
AllPlain values [] = Unit {0}
AllPlain values (field ∷ fields) =
    IsPlainAt field.kind (get_elem? values field.column) × AllPlain values fields

IsPlainAt-IsPlain :
    (kind : ScalarKeyType) {o : Option RowValue} {value : RowValue}
    → IsPlainAt kind o
    → o ≡ some value
    → IsPlain kind value
IsPlainAt-IsPlain kind h e = rw e at h

pub add_fields-Parts :
    (texts : TextKeys) (values : List RowValue) (fields : List ScalarIndexField) (raw out : RawKey)
    → AllPlain values fields
    → AllTyped values
    → add_fields texts values fields raw ≡ ok out
    → Added texts fields raw out
unfolding add_fields
add_fields-Parts texts values [] raw out plain typed h =
    let same : raw ≡ out = cc in
    rw (← same) ([], false, true, nothing, sym (append-nil raw.key), ground arith, ground arith)
add_fields-Parts texts values (field ∷ fields) raw out plain typed h =
    let (next, first, others) = and_then-eq_ok (add_field texts values field raw) _ h in
    let (value, component, found, built, k, some_null, all_null) =
      add_field-Source texts values field raw next first in
    let (rest, rest_some, rest_all, parts, k', some_null', all_null') =
      add_fields-Parts texts values fields next out plain.1 typed others in
    (
      component ++ rest,
      is_null field.kind value || rest_some,
      is_null field.kind value && rest_all,
      part field value component
          (encode-IsFramed texts field.kind value field.direction component
            (IsPlainAt-IsPlain field.kind plain.0 found) (typed_at values field.column typed found)
            built)
          parts,
      k' ∙ ap (λ t. t ++ rest) k ∙ append_assoc raw.key component rest,
      rw some_null' (rw some_null (ground arith)),
      rw all_null' (rw all_null (ground arith)),
    )

Parts-bounded :
    {texts : TextKeys} {fields : List ScalarIndexField} {key : List ℕ} {has_null all_null : Bool}
    → Parts texts fields key has_null all_null
    → length key ≤ maximum_lengths fields
Parts-bounded nothing = omega arith
Parts-bounded (part {rest = rest} field value component framed parts) =
    omega (arith, framed.bounded, Parts-bounded parts, length-append {0} component rest)

-- A key of all components of the fields has the shape, unless a null is forbidden in it.
pub key_shape-Parts :
    (texts : TextKeys) (policy : IndexNullPolicy) (fields : List ScalarIndexField) (key : List ℕ)
    (has_null all_null : Bool) (consumed : ℕ) (before : Bool)
    → Parts texts fields key has_null all_null
    → (has_null && is_required policy) ≡ false
    → key_shape texts fields policy key false consumed before
      ≡ not ((before && all_null) && is_ignore_all_null policy)
unfolding key_shape
key_shape-Parts texts policy [] key has_null all_null consumed before nothing allowed = ground arith
key_shape-Parts texts policy (field ∷ fields) key has_null all_null consumed before
      (part {rest = rest} {some_null = some_null} {rest_null = rest_null} _ value component framed
        parts)
      allowed =
    let behind = drop-append_whole component rest (length component) refl in
    let size = length-append component rest in
    let later =
      key_shape-Parts texts policy fields rest some_null rest_null (consumed + length component)
        (before && length component == 1) parts (ground arith) in
    rw (framed.whole rest, key_shape) (rw behind (ground (arith, later, framed.single_byte, size)))

-- A key that is cut before its end has the shape of a shortened one, if the whole is too long.
pub key_shape-cut_Parts :
    (texts : TextKeys) (policy : IndexNullPolicy) (fields : List ScalarIndexField) (key : List ℕ)
    (has_null all_null : Bool) (k consumed : ℕ) (before : Bool)
    → Parts texts fields key has_null all_null
    → (has_null && is_required policy) ≡ false
    → k < length key
    → max_key_bytes < consumed + length key
    → key_shape texts fields policy (take k key) true consumed before ≡ true
unfolding key_shape
key_shape-cut_Parts texts policy [] key has_null all_null k consumed before nothing allowed cut
      wide =
    absurd (omega arith)
key_shape-cut_Parts texts policy (field ∷ fields) key has_null all_null k consumed before
      (part {rest = rest} {some_null = some_null} {rest_null = rest_null} _ value component framed
        parts)
      allowed cut wide =
    let size = length-append component rest in
    elim (dec_lt k (length component)) [
      | yes inside ↦ rw (take-append_part component rest k (omega arith)) (
          rw (framed.cut k inside, key_shape)
            (ground (arith, framed.bounded, Parts-bounded parts, size)))
      | no behind ↦
          let later =
            key_shape-cut_Parts texts policy fields rest some_null rest_null (k - length component)
              (consumed + length component) (before && length component == 1) parts (ground arith)
              (omega arith) (omega arith) in
          rw (take-append_more component rest k (omega arith)) (
            rw (framed.whole (take (k - length component) rest), key_shape)
              (rw
                (drop-append_whole component (take (k - length component) rest) (length component)
                  refl)
                (ground (
                  arith,
                  later,
                  framed.single_byte,
                  length-append component (take (k - length component) rest),
                ))))
    ]
