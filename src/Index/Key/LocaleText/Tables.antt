-- ===== src/Index/Key/LocaleText/Tables.antt =====
-- crates/jet3/src/index/key/locale_text.rs: the weights of one sort order.
use jet3_rs.Common.{ℕ, List}

pub record Weights : Type 0 where
  pub primary : List ℕ
  pub secondary : List ℕ
  pub accents : List ℕ
  pub source_cost : List ℕ
  pub expansions : List (ℕ × ℕ)
