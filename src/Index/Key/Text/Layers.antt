-- ===== src/Index/Key/Text/Layers.antt =====
-- crates/jet3/src/index/key/locale_text.rs and text.rs: what the two have in common. A text component
-- is the marker, the primary weights, and the secondary weights as nibbles between two zero nibbles.
use jet3_rs.Common.{
  ℕ, zero, suc, ◌+◌, ◌-◌, ◌*◌, ◌/◌, ◌%◌, ltb, leb, ◌==◌, if◌then◌else◌, Bool, true, false, not,
  ◌&&◌, ◌||◌, Option, none, some, List, [], ◌∷◌, ◌++◌, map, length, drop, bit_xor,
}
use jet3_rs.Common.Bytes.{byte_at}
use jet3_rs.Index.Key.{IndexDirection, KeyPrefix, complete, partial}
use jet3_rs.Index.Key.Binary.{mask_of}

-- What the loops look up: which weights are primary ones, which have secondary weights and which of
-- them, how many bytes a weight stands for, and which pairs of weights one byte can stand for.
pub record Rules : Type 0 where
  pub valid : ℕ → Bool
  pub accented : ℕ → Bool
  pub allowed : (primary secondary : ℕ) → Bool
  pub cost : ℕ → ℕ
  pub expansion : (first second : ℕ) → Bool

-- The primary and the secondary weights of a text, in its order.
pub record Weighed : Type 0 where
  pub primary : List ℕ
  pub secondary : List ℕ

abbrev pub no_weights : Weighed
no_weights = record { primary = []; secondary = [] }

-- The trailing elements that are `x` are left out.
abbrev is_last : ℕ → ℕ → List ℕ → Bool
is_last x y [] = y == x
is_last x y (z ∷ zs) = false

unfoldable pub trim_end : ℕ → List ℕ → List ℕ
trim_end x [] = []
trim_end x (y ∷ ys) = let rest = trim_end x ys in if is_last x y rest then [] else y ∷ rest

-- `to_be_bytes().into_iter().filter(|&v| v != 0)` of a `u16`.
abbrev nonzero : ℕ → List ℕ → List ℕ
nonzero zero bytes = bytes
nonzero (suc n) bytes = suc n ∷ bytes

abbrev pub weight_bytes : ℕ → List ℕ
weight_bytes primary = nonzero (primary / 256) (nonzero (primary % 256) [])

abbrev secondaries : (accented : ℕ → Bool) → List ℕ → ℕ → List ℕ → List ℕ
secondaries accented [] nibble rest = rest
secondaries accented (weight ∷ weights) nibble rest =
    if accented weight
    then nibble ∷ secondaries accented weights nibble rest
    else secondaries accented weights nibble rest

-- The weights of one byte before those of the bytes behind it.
unfoldable pub add_weights : (accented : ℕ → Bool) → (primary nibble : ℕ) → Weighed → Weighed
add_weights accented primary nibble rest = record {
  primary = weight_bytes primary ++ rest.primary;
  secondary = secondaries accented (weight_bytes primary) nibble rest.secondary;
}

-- Two nibbles a byte, the first one high, on bytes that were filled with the mask.
unfoldable pub pack_nibbles : (mask : ℕ) → List ℕ → List ℕ
pack_nibbles mask [] = []
pack_nibbles mask (high ∷ []) = bit_xor mask (high * 16 % 256) ∷ []
pack_nibbles mask (high ∷ low ∷ nibbles) =
    bit_xor (bit_xor mask (high * 16 % 256)) low ∷ pack_nibbles mask nibbles

-- The end of both encoders: the output from the weights.
unfoldable pub text_component : IndexDirection → Weighed → List ℕ
unfolding pack_nibbles trim_end
text_component direction weighed =
    let mask = mask_of direction in
    bit_xor 0x7f mask ∷ map (λ weight. bit_xor weight mask) weighed.primary
    ++ pack_nibbles mask (0 ∷ trim_end 2 weighed.secondary ++ (0 ∷ []))

-- The primary weights of a key, each with the secondary weight that the key gives it.
abbrev pub Layers : Type 0
Layers = List (ℕ × ℕ)

-- The bytes that the weights of a key need at least: `source_bytes`, and `minimum_source_bytes` where
-- each weight costs one byte.
unfoldable pub source_bytes : Rules → Layers → ℕ
source_bytes rules [] = 0
source_bytes rules ((a, s) ∷ []) = rules.cost a
source_bytes rules ((a, s) ∷ (b, t) ∷ layers) =
    elim (rules.expansion a b && ((s == 2) && (t == 2))) [
      | true ↦ 1 + source_bytes rules layers
      | false ↦ rules.cost a + source_bytes rules ((b, t) ∷ layers)
    ]

-- The first weight at `current` or behind it that has secondary weights, with its place.
unfoldable pub next_accented : (accented : ℕ → Bool) → (current index : ℕ) → Layers → Option (ℕ × ℕ)
next_accented accented current index [] = none
next_accented accented current index ((weight, nibble) ∷ layers) =
    if leb current index && accented weight
    then some (index, weight)
    else next_accented accented current (index + 1) layers

abbrev set_secondary : (index nibble : ℕ) → Layers → Layers
set_secondary index nibble [] = []
set_secondary zero nibble ((weight, old) ∷ layers) = (weight, nibble) ∷ layers
set_secondary (suc index) nibble ((weight, old) ∷ layers) =
    (weight, old) ∷ set_secondary index nibble layers

-- What `prefix` says of a key that ends before its last nibble.
unfoldable pub cut_text : Rules → (maximum : ℕ) → Layers → Option KeyPrefix
unfolding source_bytes
cut_text rules maximum layers =
    if ltb maximum (source_bytes rules layers) then none else some (partial (3 * maximum + 2))

-- The inner loop of `prefix`, over the nibbles from `index` on, with `rounds` of them left.
unfoldable pub prefix_nibbles :
    Rules
    → (key : List ℕ) → (mask maximum rounds index : ℕ) → Layers
    → (current last : ℕ) → Option KeyPrefix
unfolding cut_text next_accented
prefix_nibbles rules key mask maximum zero index layers current last = cut_text rules maximum layers
prefix_nibbles rules key mask maximum (suc rounds) index layers current last =
    let byte = bit_xor (byte_at key (index / 2)) mask in
    let is_high = index % 2 == 0 in
    let nibble = if is_high then byte / 16 else byte % 16 in
    elim (nibble == 0) [
      | true ↦
          if (last == 2)
            || (is_high && not (byte % 16 == 0))
            || ltb maximum (source_bytes rules layers)
          then none
          else some (complete (index / 2 + 1))
      | false ↦ elim (next_accented rules.accented current 0 layers) [
        | none ↦ none
        | some (place, weight) ↦
            let rest =
              prefix_nibbles rules key mask maximum rounds (index + 1)
                (set_secondary place nibble layers) (place + 1) nibble in
            if rules.allowed weight nibble then rest else none
      ]
    ]

-- The outer loop of `prefix`, over the primary weights from `position` on.
unfoldable pub prefix_weights :
    Rules
    → (key : List ℕ) → (mask maximum position : ℕ) → (bytes : List ℕ) → Layers
    → Option KeyPrefix
unfolding prefix_nibbles
prefix_weights rules key mask maximum position [] layers = cut_text rules maximum layers
prefix_weights rules key mask maximum position (byte ∷ bytes) layers =
    let weight = bit_xor byte mask in
    let start = position * 2 + 1 in
    elim (leb 0x10 weight) [
      | true ↦
          let rest =
            prefix_weights rules key mask maximum (position + 1) bytes
              (layers ++ ((weight, 2) ∷ [])) in
          if not (rules.valid weight) || leb (2 * maximum) (length layers) then none else rest
      | false ↦ prefix_nibbles rules key mask maximum (length key * 2 - start) start layers 0 0
    ]

unfoldable pub text_prefix : Rules → List ℕ → (maximum : ℕ) → IndexDirection → Option KeyPrefix
unfolding prefix_weights
text_prefix rules key maximum direction =
    prefix_weights rules key (mask_of direction) maximum 1 (drop 1 key) []
