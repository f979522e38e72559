-- ===== src/Text/Utf8.antt =====
-- `Bytes::from(String)`, `String::from_utf8`, `String::from_utf8_lossy` of Rust's standard library.
use Prim.Native.Char.{code}
use Prim.Native.String.{String}
use mathlib.Core.Option
use trap.Shared.{
  ℕ, zero, suc, ◌+◌, ◌-◌, ◌*◌, ◌/◌, ◌%◌, ◌≤◌, ◌<◌, true, false, ◌&&◌, Option, none, some, List, [],
  ◌∷◌, ◌++◌, ltb, leb, ◌==◌, if◌then◌else◌, ◌⊎◌,
}

-- A text: its scalar values.
abbrev pub Str : Type 0
Str = List ℕ

abbrev pub Bytes : Type 0
Bytes = List ℕ

-- The text of a literal.
abbrev pub str : String → Str
str String.[] = []
str (String.◌∷◌ c s) = code c ∷ str s

-- A Unicode scalar value: a code point that is no surrogate.
abbrev pub IsScalar : ℕ → Type 0
IsScalar c = (c < 55296) ⊎ ((57344 ≤ c) × (c < 1114112))

-- The UTF-8 form of one scalar value.
unfoldable pub encode_char : ℕ → Bytes
encode_char c =
    if ltb c 128
    then c ∷ []
    else if ltb c 2048
    then (192 + c / 64) ∷ (128 + c % 64) ∷ []
    else if ltb c 65536
    then (224 + c / 4096) ∷ (128 + c / 64 % 64) ∷ (128 + c % 64) ∷ []
    else (240 + c / 262144) ∷ (128 + c / 4096 % 64) ∷ (128 + c / 64 % 64) ∷ (128 + c % 64) ∷ []

unfoldable pub encode : Str → Bytes
unfolding encode_char
encode [] = []
encode (c ∷ s) = encode_char c ++ encode s

-- Where a decoder stands: how many continuation bytes it still wants, the bits read so far, and the
-- range in which the next continuation byte must lie.
pub record Decoder : Type 0 where
  pub need : ℕ
  pub point : ℕ
  pub lower : ℕ
  pub upper : ℕ

abbrev pub idle : Decoder
idle = record { need = 0; point = 0; lower = 128; upper = 191 }

abbrev pub wants : ℕ → ℕ → ℕ → ℕ → Decoder
wants n p l u = record { need = n; point = p; lower = l; upper = u }

pub data Outcome : Type 0 where
  more : Decoder → Outcome
  emit : ℕ → Outcome
  invalid : Outcome

-- The first byte of a sequence. Overlong forms, surrogates and values past U+10FFFF are excluded by
-- the range of the second byte.
unfoldable pub lead : ℕ → Outcome
lead b =
    if ltb b 128
    then emit b
    else if ltb b 194
    then invalid
    else if ltb b 224
    then more (wants 1 (b - 192) 128 191)
    else if ltb b 240
    then more (wants 2 (b - 224) (if b == 224 then 160 else 128) (if b == 237 then 159 else 191))
    else if ltb b 245
    then more (wants 3 (b - 240) (if b == 240 then 144 else 128) (if b == 244 then 143 else 191))
    else invalid

continue : ℕ → Decoder → ℕ → Outcome
continue n d b =
    if leb d.lower b && leb b d.upper
    then if n == 0
      then emit (d.point * 64 + (b - 128))
      else more (wants n (d.point * 64 + (b - 128)) 128 191)
    else invalid

dispatch : ℕ → Decoder → ℕ → Outcome
unfolding lead continue
dispatch zero d b = lead b
dispatch (suc n) d b = continue n d b

-- One byte.
unfoldable pub advance : Decoder → ℕ → Outcome
unfolding dispatch
advance d b = dispatch d.need d b

-- `String::from_utf8`: `none` is its error.
unfoldable pub decode_from : Decoder → Bytes → Option Str
decode_from d [] = if d.need == 0 then some [] else none
decode_from d (b ∷ bs) = elim (advance d b) [
  | more d' ↦ decode_from d' bs
  | emit c ↦ Option.map (◌∷◌ c) (decode_from idle bs)
  | invalid ↦ none
]

unfoldable pub from_utf8 : Bytes → Option Str
unfolding decode_from advance
from_utf8 = decode_from idle

abbrev pub replacement : ℕ
replacement = 65533

-- `String::from_utf8_lossy`: each maximal invalid part becomes U+FFFD, and the byte that broke off a
-- sequence is read again as a first byte.
unfoldable pub lossy_from : Decoder → Bytes → Str
lossy_from d [] = if d.need == 0 then [] else replacement ∷ []
lossy_from d (b ∷ bs) = elim (advance d b) [
  | more d' ↦ lossy_from d' bs
  | emit c ↦ c ∷ lossy_from idle bs
  | invalid ↦ elim (d.need == 0) [
    | true ↦ replacement ∷ lossy_from idle bs
    | false ↦ replacement ∷ (elim (advance idle b) [
      | more d' ↦ lossy_from d' bs
      | emit c ↦ c ∷ lossy_from idle bs
      | invalid ↦ replacement ∷ lossy_from idle bs
    ])
  ]
]

unfoldable pub from_utf8_lossy : Bytes → Str
unfolding lossy_from advance
from_utf8_lossy = lossy_from idle
