-- ===== src/Format/Error.antt =====
-- crates/jet3/src/format/error.rs: the structured failures.
use jet3_rs.Common.{ℕ, String}

pub data LimitKind : Type 0 where
  input_bytes single_read_bytes total_read_bytes : LimitKind

pub data ResourceLimitKind : Type 0 where
  allocation_bytes decoded_value_bytes total_decoded_bytes encoded_bytes : ResourceLimitKind
  item_work page_visits chain_depth total_work_units : ResourceLimitKind

-- The categories of `std::io::ErrorKind` that the crate names.
pub data IoErrorKind : Type 0 where
  already_exists interrupted invalid_data invalid_input not_found other : IoErrorKind
  out_of_memory permission_denied unsupported : IoErrorKind

-- The arguments stand in the order of the source's fields.
pub data Error : Type 0 where
  integer_conversion : (value : ℕ) → (target : String) → Error
  arithmetic : (operation : String) → Error
  offset_out_of_bounds : (offset input_len : ℕ) → Error
  output_offset_out_of_bounds : (offset capacity : ℕ) → Error
  output_capacity_exceeded : (offset needed available : ℕ) → Error
  unexpected_end : (offset needed available : ℕ) → Error
  short_read : (offset needed actual : ℕ) → Error
  io : (operation : String) → IoErrorKind → Error
  invalid_page_size : (page_size : ℕ) → Error
  partial_page : (input_len page_size trailing : ℕ) → Error
  page_out_of_bounds : (page page_count : ℕ) → Error
  page_offset_out_of_bounds : (offset page_size : ℕ) → Error
  limit_exceeded : LimitKind → (requested maximum : ℕ) → Error
  resource_limit_exceeded : ResourceLimitKind → (requested maximum : ℕ) → Error
