-- ===== src/Format/Examples/Streams.antt =====
-- The cursor and the writer at concrete bytes.
use jet3_rs.Common.{ℕ, ◌≡◌, refl, arith, List, [], ◌∷◌, slice, copy_at}
use jet3_rs.Common.Int.{negsuc}
use jet3_rs.Common.Results.{done}
use jet3_rs.Format.Limits.{default_read_limits, new_read_budget}
use jet3_rs.Format.Resource.{ResourceBudget, default_limits, new_budget, charge_encoded_bytes}
use jet3_rs.Format.Resource.Accounting.{HasU64Limits}
use jet3_rs.Format.Cursor.{BinaryCursor, read_exact}
use jet3_rs.Format.Cursor.Reads.{IsCursor, advance, read_exact_iff}
use jet3_rs.Format.Writer.{BinaryWriter, write_exact, write_i32_le, new_writer}
use jet3_rs.Format.Writer.Writes.{IsWriter, written, write_exact_iff}
use jet3_rs.Format.Words.{i32, write, read_like, at_start_of, read_like-write}

abbrev three : BinaryCursor
three = record {
  input = 5 ∷ 6 ∷ 7 ∷ [];
  position = 1;
  budget = new_read_budget default_read_limits;
}

abbrev three_IsCursor : IsCursor three
three_IsCursor = record { inside = omega arith; input_u64 = omega arith; limit_u64 = omega arith }

read_exact_iff_example : read_exact 2 three ≡ done (6 ∷ 7 ∷ []) (advance 2 three)
unfolding slice
read_exact_iff_example =
    (read_exact_iff 2 three (advance 2 three) (6 ∷ 7 ∷ []) three_IsCursor).1
      (omega arith, omega arith, refl, refl)

abbrev budget : ResourceBudget
budget = new_budget default_limits

abbrev four : BinaryWriter
four = new_writer (0 ∷ 0 ∷ 0 ∷ 0 ∷ []) budget

abbrev limits_u64 : HasU64Limits budget.limits
limits_u64 = record {
  allocation_u64 = omega arith;
  decoded_u64 = omega arith;
  encoded_u64 = omega arith;
  items_u64 = omega arith;
  visits_u64 = omega arith;
  work_u64 = omega arith;
}

abbrev four_IsWriter : IsWriter four
four_IsWriter = record {
  same_capacity = refl;
  inside = omega arith;
  capacity_u64 = omega arith;
  limits_u64 = limits_u64;
}

write_exact_iff_example : write_exact (9 ∷ 8 ∷ []) four ≡ done tt (written (9 ∷ 8 ∷ []) four)
write_exact_iff_example =
    (write_exact_iff (9 ∷ 8 ∷ []) four (written (9 ∷ 8 ∷ []) four) four_IsWriter).1
      (omega arith, (omega arith, omega arith), refl)

abbrev minus_two : List ℕ
minus_two = 254 ∷ 255 ∷ 255 ∷ 255 ∷ []

read_like-write_example :
    read_like (i32 (negsuc 1)) (at_start_of four minus_two (new_read_budget default_read_limits))
    ≡ done
        (i32 (negsuc 1))
        (advance 4 (at_start_of four minus_two (new_read_budget default_read_limits)))
unfolding write write_i32_le write_exact charge_encoded_bytes copy_at
read_like-write_example =
    read_like-write four (written minus_two four) (new_read_budget default_read_limits)
      four_IsWriter (omega arith) (i32 (negsuc 1)) (omega arith) refl (omega arith, omega arith)
