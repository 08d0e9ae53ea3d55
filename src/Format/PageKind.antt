-- ===== src/Format/PageKind.antt =====
-- crates/jet3/src/format/page_kind.rs: the classification of a page by its number and byte zero.
pub mod Tags
use jet3_rs.Common.{ℕ, ◌==◌, if◌then◌else◌, List}
use jet3_rs.Common.Bytes.{byte_at}
use jet3_rs.Common.Results.{Op, ◌>>=◌, ◌>>◌, return, on_error}
use jet3_rs.Format.Error.{Error}
use jet3_rs.Format.Geometry.{PageNumber}
use jet3_rs.Format.Resource.{ResourceBudget, charge_work_units}

pub data PageKind : Type 0 where
  database_definition data_page table_definition intermediate_index leaf_index : PageKind
  extended_usage_bitmap : PageKind
  unknown : ℕ → PageKind

unfoldable pub page_tag : PageKind → ℕ
page_tag database_definition = 0x00
page_tag data_page = 0x01
page_tag table_definition = 0x02
page_tag intermediate_index = 0x03
page_tag leaf_index = 0x04
page_tag extended_usage_bitmap = 0x05
page_tag (unknown tag) = tag

pub record ClassifiedPage : Type 0 where
  pub number : PageNumber
  pub kind : PageKind
  pub raw : List ℕ

pub data PageClassificationError : Type 0 where
  resource : Error → PageClassificationError

-- The kind of page `number` with byte zero `tag`.
unfoldable pub kind_of : PageNumber → ℕ → PageKind
kind_of number tag =
    if number == 0
    then (if tag == 0x00 then database_definition else unknown tag)
    else if tag == 0x01
    then data_page
    else if tag == 0x02
    then table_definition
    else if tag == 0x03
    then intermediate_index
    else if tag == 0x04
    then leaf_index
    else if tag == 0x05
    then extended_usage_bitmap
    else unknown tag

unfoldable pub classify_page :
    PageNumber → List ℕ → Op PageClassificationError ResourceBudget ClassifiedPage
unfolding kind_of
classify_page number raw = do
  λ budget. on_error resource (charge_work_units 1 budget)
  return (record { number = number; kind = kind_of number (byte_at raw 0); raw = raw })
