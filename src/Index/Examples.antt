-- ===== src/Index/Examples.antt =====
-- The keys of two Long values, of binary values and of text, and the entry of a row with two fields.
use jet3_rs.Common.{
  ℕ, ◌≤◌, ◌≡◌, refl, arith, true, Bool, some, List, [], ◌∷◌, ◌++◌, length, ◌↔◌, replicate,
}
use jet3_rs.Common.Int.{pos, negsuc}
use jet3_rs.Common.Results.{done}
use jet3_rs.Format.Offset.{ByteCount}
use jet3_rs.Format.Resource.{
  ResourceBudget, charge_items, charge_work_units, default_limits, new_budget,
}
use jet3_rs.Format.Resource.Charges.{items, work}
use jet3_rs.Format.Resource.Accounting.{spend}
use jet3_rs.Row.Directory.{RowLocator}
use jet3_rs.Row.Value.{RowValue, null, long, binary, single}
use jet3_rs.Index.Order.{Before}
use jet3_rs.Index.Key.{ascending, descending, encode_long}
use jet3_rs.Index.Key.Scalar.Rank.{rank, RankInOrder}
use jet3_rs.Index.Key.Scalar.Order.{encode-RankInOrder}
use jet3_rs.Index.Key.Binary.{mask_of, max_key_bytes}
use jet3_rs.Index.Key.Binary
use jet3_rs.Index.Key.Binary.Masked.{InOrder}
use jet3_rs.Index.Key.Binary.Order.{encode-order}
use jet3_rs.Index.Key.Scalar.{
  general, long_key, single_key, text_key, binary_key, component, float_component, encode, is_null,
}
use jet3_rs.Index.Key.Scalar.Recognised.{IsFramed}
use jet3_rs.Index.Key.Scalar.Framing.{encode-IsFramed}
use jet3_rs.Index.Key.LocaleText.{locale_texts}
use jet3_rs.Index.Entry.{
  ScalarIndexField, IndexNullPolicy, include, ScalarIndexEntry, inline, add_fields, record_bytes,
  finish, key_of, record_of, locator, valid_key_shape, locator_suffix,
}
use jet3_rs.Index.Entry
use jet3_rs.Index.Entry.Shape.{encode-locator, encode-valid_key_shape}

minus_two_key : encode_long (negsuc 1) ascending ≡ 0x7f ∷ 0x7f ∷ 0xff ∷ 0xff ∷ 0xfe ∷ []
unfolding encode_long
minus_two_key = refl

-- A value of eight bytes, and one that goes on behind it.
abbrev eight : List ℕ
eight = 1 ∷ 2 ∷ 3 ∷ 4 ∷ 5 ∷ 6 ∷ 7 ∷ 8 ∷ []

abbrev ten : List ℕ
ten = eight ++ (0 ∷ 9 ∷ [])

abbrev eight_key : List ℕ
eight_key = 0x80 ∷ 0xfe ∷ 0xfd ∷ 0xfc ∷ 0xfb ∷ 0xfa ∷ 0xf9 ∷ 0xf8 ∷ 0xf7 ∷ 0xf7 ∷ []

abbrev ten_key : List ℕ
ten_key =
    0x80 ∷ 0xfe ∷ 0xfd ∷ 0xfc ∷ 0xfb ∷ 0xfa ∷ 0xf9 ∷ 0xf8 ∷ 0xf7 ∷ 9 ∷ 0xff ∷ 0xf6 ∷ 0xff ∷ 0xff
    ∷ 0xff ∷ 0xff ∷ 0xff ∷ 0xff ∷ 0xfd ∷ []

eight_run : Binary.encode eight 20 descending ≡ some eight_key
unfolding Binary.encode Binary.frame_chunks Binary.frame_chunk Binary.chunks
eight_run = refl

ten_run : Binary.encode ten 20 descending ≡ some ten_key
unfolding Binary.encode Binary.frame_chunks Binary.frame_chunk Binary.chunks
ten_run = refl

encode-order_example : Before ten_key eight_key ↔ InOrder descending ten eight
encode-order_example =
    encode-order descending 20 ten eight ten_key eight_key (omega arith) (omega arith) ten_run
      eight_run

-- 1.0 and -2.0 as Single values.
one_key :
    encode locale_texts single_key (single 0x3f800000) ascending
    ≡ some (0x7f ∷ 0xbf ∷ 0x80 ∷ 0 ∷ 0 ∷ [])
unfolding encode component float_component
one_key = refl

minus_two_float_key :
    encode locale_texts single_key (single 0xc0000000) ascending
    ≡ some (0x7f ∷ 0x3f ∷ 0xff ∷ 0xff ∷ 0xff ∷ [])
unfolding encode component float_component
minus_two_float_key = refl

encode-RankInOrder_example :
    Before (0x7f ∷ 0x3f ∷ 0xff ∷ 0xff ∷ 0xff ∷ []) (0x7f ∷ 0xbf ∷ 0x80 ∷ 0 ∷ 0 ∷ [])
    ↔ RankInOrder ascending
        (rank single_key (single 0xc0000000))
        (rank single_key (single 0x3f800000))
encode-RankInOrder_example =
    encode-RankInOrder locale_texts single_key (single 0xc0000000) (single 0x3f800000) ascending
      (0x7f ∷ 0x3f ∷ 0xff ∷ 0xff ∷ 0xff ∷ []) (0x7f ∷ 0xbf ∷ 0x80 ∷ 0 ∷ 0 ∷ []) tt (omega arith)
      (omega arith) minus_two_float_key one_key

eight_component : encode locale_texts (binary_key 20) (binary eight) descending ≡ some eight_key
unfolding encode Binary.encode Binary.frame_chunks Binary.frame_chunk Binary.chunks
eight_component = refl

encode-IsFramed_example : IsFramed locale_texts descending (binary_key 20) (binary eight) eight_key
encode-IsFramed_example =
    encode-IsFramed locale_texts (binary_key 20) (binary eight) descending eight_key tt
      (omega arith) eight_component

-- An index on a Long column, descending on a Binary column, and on a Text column that holds a null.
abbrev fields : List ScalarIndexField
fields =
    record { column = 0; direction = ascending; kind = long_key }
    ∷ record { column = 1; direction = descending; kind = binary_key 5 }
    ∷ record { column = 2; direction = ascending; kind = text_key 5 general }
    ∷ []

abbrev values : List RowValue
values = long (pos 7) ∷ binary (0x41 ∷ []) ∷ null ∷ []

abbrev row : RowLocator
row = record { page = 0x0102; slot = 3 }

abbrev granted : ByteCount → Bool
granted n = true

abbrev budget : ResourceBudget
budget = new_budget default_limits

abbrev after : ResourceBudget
after = spend (work 144) (spend (items 1) budget)

abbrev entry : ScalarIndexEntry
entry = record {
  bytes = inline (
      0x7f ∷ 0x80 ∷ 0 ∷ 0 ∷ 7 ∷ 0x80 ∷ 0xbe ∷ replicate 7 0xff
      ++ (0xfe ∷ 0 ∷ 0 ∷ 1 ∷ 2 ∷ 3 ∷ replicate 2 0));
  key_len = 16;
  has_null = true;
}

entry_run :
    Entry.encode locale_texts granted fields values include row budget ≡ done (some entry) after
unfolding Entry.encode finish add_fields record_bytes encode charge_items charge_work_units
    Binary.shorten Binary.encode Binary.frame_chunks Binary.frame_chunk Binary.chunks component
    Entry.add_field is_null
entry_run = refl

encode-locator_example :
    (locator entry ≡ row)
    × (length (key_of entry) ≤ max_key_bytes)
    × (record_of entry ≡ key_of entry ++ locator_suffix row)
encode-locator_example =
    encode-locator locale_texts granted fields values include row budget after entry entry_run

encode-valid_key_shape_example : valid_key_shape locale_texts fields include (key_of entry) ≡ true
encode-valid_key_shape_example =
    encode-valid_key_shape locale_texts granted fields values include row budget after entry
      (tt, (tt, (tt, tt))) (omega arith, ((omega arith, tt), (tt, tt))) entry_run
