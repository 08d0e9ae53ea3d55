-- ===== src/Index/Key/Scalar/Recognised.antt =====
-- What it is for a component to be framed, and what the check of each kind gives for a present one.
use jet3_rs.Common.{
  ℕ, zero, suc, ◌≤◌, ◌<◌, ◌≡◌, refl, sym, ◌∙◌, arith, ◌==◌, true, false, some, List, [], ◌∷◌, ◌++◌,
  length, length-append, length-take, take, get_or-take, ◌⊎◌,
}
use jet3_rs.Row.Value.{RowValue, text}
use jet3_rs.Index.Key.{IndexDirection, ascending, descending, complete, partial}
use jet3_rs.Index.Key.Binary.{mask_of}
use jet3_rs.Index.Key.Binary
use jet3_rs.Index.Key.Binary.Frame.{masked}
use jet3_rs.Index.Key.Scalar.{
  ScalarKeyType, boolean_key, guid_key, binary_key, text_key, TextKeys, is_null, maximum_length,
  is_boolean_key, prefix, present_prefix, fixed_prefix,
}
use jet3_rs.Index.Key.Scalar.Shapes.{FixedKind}
use jet3_rs.Common.Pieces.{byte_at-append_left}
use jet3_rs.Index.Key.Scalar.Guids.{guid_bytes}

-- All values of all kinds, texts left out. Nulls of Text columns are in.
abbrev pub IsPlain : ScalarKeyType → RowValue → Type 0
IsPlain (text_key max_len order) (text bytes) = ⊥
IsPlain kind value = Unit {0}

-- How a component stands in a key.
pub record IsFramed (texts : TextKeys) (direction : IndexDirection) (kind : ScalarKeyType)
    (value : RowValue) (key : List ℕ) : Type 0 where
  pub whole :
      (rest : List ℕ) → prefix texts kind (key ++ rest) direction ≡ some (complete (length key))
  pub cut :
      (k : ℕ)
      → k < length key
      → prefix texts kind (take k key) direction ≡ some (partial (maximum_length kind))
  pub present : 1 ≤ length key
  pub bounded : length key ≤ maximum_length kind
  pub single_byte : (length key == 1) ≡ is_null kind value

-- Behind the marker of a present value the check is that of the kind.
pub prefix-present :
    (texts : TextKeys) (kind : ScalarKeyType) (direction : IndexDirection) (r : List ℕ)
    → prefix texts kind (masked direction 0x7f ∷ r) direction
      ≡ present_prefix texts kind (masked direction 0x7f ∷ r) direction
unfolding prefix
prefix-present texts kind ascending r = refl
prefix-present texts kind descending r = refl

prefix-absent :
    (texts : TextKeys) (kind : ScalarKeyType) (direction : IndexDirection) (r : List ℕ)
    → is_boolean_key kind ≡ false
    → prefix texts kind (mask_of direction ∷ r) direction ≡ some (complete 1)
unfolding prefix
prefix-absent texts kind ascending r e = ground arith
prefix-absent texts kind descending r e = ground arith

prefix-nothing :
    (texts : TextKeys) (kind : ScalarKeyType) (direction : IndexDirection)
    → prefix texts kind [] direction ≡ some (partial (maximum_length kind))
unfolding prefix
prefix-nothing texts kind direction = refl

-- The component of an absent value is one byte.
pub absent-IsFramed :
    (texts : TextKeys) (kind : ScalarKeyType) (direction : IndexDirection) (value : RowValue)
    → 1 ≤ maximum_length kind
    → is_null kind value ≡ true
    → is_boolean_key kind ≡ false
    → IsFramed texts direction kind value (mask_of direction ∷ [])
absent-IsFramed texts kind direction value bound n b = record {
  whole = λ rest. prefix-absent texts kind direction rest b;
  cut = λ k h. let e : k ≡ 0 = omega arith in rw e (prefix-nothing texts kind direction);
  present = omega arith;
  bounded = bound;
  single_byte = sym n;
}

prefix-fixed :
    (texts : TextKeys) (kind : ScalarKeyType) (direction : IndexDirection) (r key : List ℕ)
    → is_boolean_key kind ≡ false
    → FixedKind kind r
    → present_prefix texts kind key direction ≡ fixed_prefix (maximum_length kind) key
unfolding present_prefix
prefix-fixed texts boolean_key direction r key b fixed = cc
prefix-fixed texts guid_key direction r key b fixed = absurd fixed
prefix-fixed texts (binary_key max_len) direction r key b fixed = absurd fixed
prefix-fixed texts (text_key max_len order) direction r key b fixed = absurd fixed
prefix-fixed texts kind direction r key b fixed = refl

-- What the check of a kind gives for a present component, and what an encoder's laws are about.
abbrev pub Recognised : TextKeys → ScalarKeyType → IndexDirection → List ℕ → Type 0
Recognised texts kind direction key =
    ((rest : List ℕ)
      → present_prefix texts kind (key ++ rest) direction ≡ some (complete (length key)))
    × ((k : ℕ)
        → suc k < length key
        → present_prefix texts kind (take (suc k) key) direction
          ≡ some (partial (maximum_length kind)))

cut_present :
    (texts : TextKeys) (kind : ScalarKeyType) (direction : IndexDirection) (r : List ℕ)
    → Recognised texts kind direction (masked direction 0x7f ∷ r)
    → (k : ℕ) → k < length (masked direction 0x7f ∷ r)
    → prefix texts kind (take k (masked direction 0x7f ∷ r)) direction
      ≡ some (partial (maximum_length kind))
cut_present texts kind direction r found zero h = prefix-nothing texts kind direction
cut_present texts kind direction r found (suc k) h =
    prefix-present texts kind direction (take k r) ∙ found.1 k h

-- A present component from what its kind's check gives for it.
pub present-IsFramed :
    (texts : TextKeys) (kind : ScalarKeyType) (direction : IndexDirection) (value : RowValue)
    (r key : List ℕ)
    → key ≡ masked direction 0x7f ∷ r
    → is_null kind value ≡ false
    → 1 ≤ length r
    → length key ≤ maximum_length kind
    → Recognised texts kind direction key
    → IsFramed texts direction kind value key
present-IsFramed texts kind direction value r key e n some_byte bound found =
    let found' = rw e at found in
    rw e (record {
      whole = λ rest. prefix-present texts kind direction (r ++ rest) ∙ found'.0 rest;
      cut = cut_present texts kind direction r found';
      present = omega arith;
      bounded = rw e at bound;
      single_byte = rw n (ground arith);
    })

-- Kinds of one length, Booleans left out.
pub fixed-Recognised :
    (texts : TextKeys) (kind : ScalarKeyType) (direction : IndexDirection) (r : List ℕ)
    (key : List ℕ)
    → is_boolean_key kind ≡ false
    → FixedKind kind r
    → length key ≡ maximum_length kind
    → Recognised texts kind direction key
fixed-Recognised texts kind direction r key b fixed e = (
  λ rest.
      prefix-fixed texts kind direction r (key ++ rest) b fixed
      ∙ ground (arith, length-append key rest),
  λ k h.
      prefix-fixed texts kind direction r (take (suc k) key) b fixed
      ∙ ground (arith, length-take (suc k) key),
)

pub boolean-Recognised :
    (texts : TextKeys) (direction : IndexDirection) (b : ℕ)
    → (b ≡ 0) ⊎ (b ≡ 0xff)
    → (m : ℕ) → Recognised texts boolean_key direction (m ∷ b ∷ [])
unfolding present_prefix maximum_length
boolean-Recognised texts direction b h m =
    (λ rest. ground arith, λ k inside. let e : k ≡ 0 = omega arith in rw e (ground arith))

pub guid-Recognised :
    (texts : TextKeys) (direction : IndexDirection) (bytes key : List ℕ)
    → length bytes ≡ 16
    → Binary.encode bytes 16 direction ≡ some key
    → Recognised texts guid_key direction key
unfolding present_prefix maximum_length
guid-Recognised texts direction bytes key sixteen e =
    let (size, ninth, last) = guid_bytes direction bytes sixteen e in
    (
      λ rest. ground (
        arith,
        byte_at-append_left key rest 9,
        byte_at-append_left key rest 18,
        length-append key rest,
      ),
      λ k h. ground (
        arith,
        get_or-take (suc k) key 9 0,
        get_or-take (suc k) key 18 0,
        length-take (suc k) key,
      ),
    )
