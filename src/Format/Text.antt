-- ===== src/Format/Text.antt =====
-- crates/jet3/src/format/text.rs: the code pages and the characters of their bytes.
pub mod CodePages
use jet3_rs.Common.{ℕ, ◌-◌, ltb, leb, ◌==◌, if◌then◌else◌, ◌&&◌, ◌||◌, Option, none, some, List}
use jet3_rs.Common.Bytes.{byte_at}
use jet3_rs.Format.Text.CodePages.{cp1251, cp1252, cp1253}

pub data TextCodePage : Type 0 where
  windows1251 windows1252 windows1253 : TextCodePage

abbrev upper_half : TextCodePage → List ℕ
upper_half windows1251 = cp1251
upper_half windows1252 = cp1252
upper_half windows1253 = cp1253

-- `char::from_u32`, the scalar value of the character.
abbrev from_u32 : ℕ → Option ℕ
from_u32 scalar =
    if ltb scalar 0xd800 || (leb 0xe000 scalar && ltb scalar 0x11_0000) then some scalar else none

unfoldable pub mapped_character : TextCodePage → ℕ → Option ℕ
mapped_character code_page byte =
    let scalar = byte_at (upper_half code_page) (byte - 0x80) in
    if ltb byte 0x80 then from_u32 byte else if scalar == 0 then none else from_u32 scalar
