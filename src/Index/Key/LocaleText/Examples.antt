-- ===== src/Index/Key/LocaleText/Examples.antt =====
-- Text keys at concrete values: expansions, accents, contractions and spaces.
use jet3_rs.Common.{◌≡◌, refl, some, none, [], ◌∷◌}
use jet3_rs.Index.Key.{ascending, descending, complete, partial}
use jet3_rs.Index.Key.Scalar.{general, nordic, spanish, dutch, cyrillic, greek}
use jet3_rs.Format.Text.{mapped_character}
use jet3_rs.Index.Key.LocaleText.{encode, encode_bytes, prefix, rules_of}
use jet3_rs.Index.Key.Text
use jet3_rs.Index.Key.Text.Layers.{trim_end, text_component, add_weights, text_prefix}

-- A, an accented E, Z, and a space that is left out.
accents_between :
    encode (0x41 ∷ 0xe9 ∷ 0x5a ∷ 0x20 ∷ []) 255 ascending general
    ≡ some (0x7f ∷ 0x60 ∷ 0x66 ∷ 0x7e ∷ 0x02 ∷ 0x40 ∷ [])
unfolding encode Text.encode trim_end text_component add_weights
accents_between = refl

sharp_s : encode (0xdf ∷ []) 1 descending general ≡ some (0x80 ∷ 0x89 ∷ 0x89 ∷ 0xff ∷ [])
unfolding encode Text.encode trim_end text_component add_weights
sharp_s = refl

undefined_byte : encode (0x81 ∷ []) 255 ascending general ≡ none
unfolding encode Text.encode trim_end text_component add_weights
undefined_byte = refl

spanish_ch :
    encode (0x63 ∷ 0x68 ∷ 0xe9 ∷ []) 255 ascending spanish
    ≡ some (0x7f ∷ 0x63 ∷ 0x66 ∷ 0x02 ∷ 0x40 ∷ [])
unfolding encode mapped_character encode_bytes trim_end text_component add_weights
spanish_ch = refl

nordic_ch :
    encode (0x63 ∷ 0x68 ∷ 0xe9 ∷ []) 255 ascending nordic
    ≡ some (0x7f ∷ 0x62 ∷ 0x68 ∷ 0x65 ∷ 0x02 ∷ 0x30 ∷ [])
unfolding encode mapped_character encode_bytes trim_end text_component add_weights
nordic_ch = refl

dutch_ij : encode (0xff ∷ []) 1 ascending dutch ≡ some (0x7f ∷ 0x6a ∷ 0x6b ∷ 0 ∷ [])
unfolding encode mapped_character encode_bytes trim_end text_component add_weights
dutch_ij = refl

cyrillic_ya : encode (0xdf ∷ []) 1 ascending cyrillic ≡ some (0x7f ∷ 0xb9 ∷ 0 ∷ [])
unfolding encode mapped_character encode_bytes trim_end text_component add_weights
cyrillic_ya = refl

greek_iota : encode (0xc0 ∷ []) 1 ascending greek ≡ some (0x7f ∷ 0x87 ∷ 0x05 ∷ 0 ∷ [])
unfolding encode mapped_character encode_bytes trim_end text_component add_weights
greek_iota = refl

-- Two letters of one byte each do not fit where one byte is the most; the letter that stands for two does.
one_byte_sharp_s :
    prefix (0x7f ∷ 0x76 ∷ 0x76 ∷ 0 ∷ 0x7f ∷ []) 1 ascending general ≡ some (complete 4)
unfolding prefix Text.prefix text_prefix Text.valid_primary Text.accented_primary
    Text.allowed_secondary Text.expands
one_byte_sharp_s = refl

two_letters : prefix (0x7f ∷ 0x60 ∷ 0x60 ∷ 0 ∷ []) 1 ascending general ≡ none
unfolding prefix Text.prefix text_prefix Text.valid_primary Text.accented_primary
    Text.allowed_secondary Text.expands
two_letters = refl

cut_accents :
    prefix (0x7f ∷ 0x60 ∷ 0x66 ∷ 0x7e ∷ 0x02 ∷ []) 255 ascending general ≡ some (partial 767)
unfolding prefix Text.prefix text_prefix Text.valid_primary Text.accented_primary
    Text.allowed_secondary Text.expands
cut_accents = refl

neutral_at_end : prefix (0x7f ∷ 0x60 ∷ 0x02 ∷ 0 ∷ []) 255 ascending general ≡ none
unfolding prefix Text.prefix text_prefix Text.valid_primary Text.accented_primary
    Text.allowed_secondary Text.expands
neutral_at_end = refl

dutch_whole : prefix (0x7f ∷ 0x6a ∷ 0x6b ∷ 0 ∷ []) 1 ascending dutch ≡ some (complete 4)
unfolding prefix rules_of text_prefix
dutch_whole = refl
