-- ===== src/Text/RoundTrip.antt =====
-- UTF-8 as the WebSocket code uses it: encoding against the strict and the lossy decoding.
use mathlib.Core.Option
use trap.Shared.{
  ℕ, suc, ◌+◌, ◌*◌, ◌/◌, ◌%◌, ◌<◌, ◌≤◌, ◌≡◌, refl, ap, subst, ◌∙◌, ◌⊎◌, inl, inr, Option, none,
  some, [], ◌∷◌, ◌++◌, All, arith, ltb, ◌==◌, if◌then◌else◌, Bool-cases, ltb→lt,
}
use trap.Text.Utf8.{
  Str, Bytes, IsScalar, encode_char, encode, Decoder, idle, wants, Outcome, more, emit, invalid,
  lead, advance, decode_from, from_utf8, lossy_from, from_utf8_lossy,
}

decode_more :
    (d d' : Decoder) (b : ℕ) (bs : Bytes)
    → advance d b ≡ more d'
    → decode_from d (b ∷ bs) ≡ decode_from d' bs
unfolding decode_from
decode_more d d' b bs e = rw (e, decode_from)

decode_emit :
    (d : Decoder) (b c : ℕ) (bs : Bytes)
    → advance d b ≡ emit c
    → decode_from d (b ∷ bs) ≡ Option.map (◌∷◌ c) (decode_from idle bs)
unfolding decode_from
decode_emit d b c bs e = rw (e, decode_from)

-- A continuation byte, in the middle of a sequence and at its end.
advance_more :
    (n p x l u : ℕ)
    → l ≤ 128 + x
    → 128 + x ≤ u
    → advance (wants (suc (suc n)) p l u) (128 + x) ≡ more (wants (suc n) (p * 64 + x) 128 191)
unfolding advance
advance_more n p x l u h k = ground arith

advance_emit :
    (p x l u : ℕ)
    → l ≤ 128 + x
    → 128 + x ≤ u
    → advance (wants 1 p l u) (128 + x) ≡ emit (p * 64 + x)
unfolding advance
advance_emit p x l u h k = ground arith

lead_one : (c : ℕ) → c < 128 → lead c ≡ emit c
unfolding lead
lead_one c h = ground arith

lead_two : (x : ℕ) → 2 ≤ x → x < 32 → lead (192 + x) ≡ more (wants 1 x 128 191)
unfolding lead
lead_two x h k = ground arith

lower3 : ℕ → ℕ
lower3 x = if x == 0 then 160 else 128

upper3 : ℕ → ℕ
upper3 x = if x == 13 then 159 else 191

lower4 : ℕ → ℕ
lower4 x = if x == 0 then 144 else 128

upper4 : ℕ → ℕ
upper4 x = if x == 4 then 143 else 191

lead_three : (x : ℕ) → x < 16 → lead (224 + x) ≡ more (wants 2 x (lower3 x) (upper3 x))
unfolding lead lower3 upper3
lead_three x h = ground arith

lead_four : (x : ℕ) → x < 5 → lead (240 + x) ≡ more (wants 3 x (lower4 x) (upper4 x))
unfolding lead lower4 upper4
lead_four x h = ground arith

decode_two :
    (x y : ℕ) (bs : Bytes)
    → 2 ≤ x
    → x < 32
    → y < 64
    → decode_from idle ((192 + x) ∷ (128 + y) ∷ bs)
      ≡ Option.map (◌∷◌ (x * 64 + y)) (decode_from idle bs)
unfolding advance
decode_two x y bs h k l =
    decode_more idle _ _ _ (lead_two x h k)
    ∙ decode_emit _ _ _ bs (advance_emit x y 128 191 (omega arith) (omega arith))

decode_three :
    (x y z : ℕ) (bs : Bytes)
    → x < 16
    → lower3 x ≤ 128 + y
    → 128 + y ≤ upper3 x
    → z < 64
    → decode_from idle ((224 + x) ∷ (128 + y) ∷ (128 + z) ∷ bs)
      ≡ Option.map (◌∷◌ ((x * 64 + y) * 64 + z)) (decode_from idle bs)
unfolding advance
decode_three x y z bs h k l m =
    decode_more idle _ _ _ (lead_three x h)
    ∙ decode_more _ _ _ _ (advance_more 0 x y (lower3 x) (upper3 x) k l)
    ∙ decode_emit _ _ _ bs (advance_emit (x * 64 + y) z 128 191 (omega arith) (omega arith))

decode_four :
    (x y z w : ℕ) (bs : Bytes)
    → x < 5
    → lower4 x ≤ 128 + y
    → 128 + y ≤ upper4 x
    → z < 64
    → w < 64
    → decode_from idle ((240 + x) ∷ (128 + y) ∷ (128 + z) ∷ (128 + w) ∷ bs)
      ≡ Option.map (◌∷◌ (((x * 64 + y) * 64 + z) * 64 + w)) (decode_from idle bs)
unfolding advance
decode_four x y z w bs h k l m n =
    decode_more idle _ _ _ (lead_four x h)
    ∙ decode_more _ _ _ _ (advance_more 1 x y (lower4 x) (upper4 x) k l)
    ∙ decode_more _ _ _ _ (advance_more 0 (x * 64 + y) z 128 191 (omega arith) (omega arith))
    ∙ decode_emit _ _ _ bs
        (advance_emit ((x * 64 + y) * 64 + z) w 128 191 (omega arith) (omega arith))

split_two : (c : ℕ) → c / 64 * 64 + c % 64 ≡ c
split_two c = omega arith

split_three : (c : ℕ) → (c / 4096 * 64 + c / 64 % 64) * 64 + c % 64 ≡ c
split_three c = omega arith

split_four : (c : ℕ) → ((c / 262144 * 64 + c / 4096 % 64) * 64 + c / 64 % 64) * 64 + c % 64 ≡ c
split_four c = omega arith

range_three :
    (c : ℕ)
    → 2048 ≤ c
    → c < 65536
    → IsScalar c
    → (lower3 (c / 4096) ≤ 128 + c / 64 % 64) × (128 + c / 64 % 64 ≤ upper3 (c / 4096))
unfolding lower3 upper3
range_three c h k s = ground arith

range_four :
    (c : ℕ)
    → 65536 ≤ c
    → IsScalar c
    → (lower4 (c / 262144) ≤ 128 + c / 4096 % 64) × (128 + c / 4096 % 64 ≤ upper4 (c / 262144))
unfolding lower4 upper4
range_four c h s = ground arith

-- The decoder reads one encoded scalar value back.
decode_from-encode_char :
    (c : ℕ) (bs : Bytes)
    → IsScalar c
    → decode_from idle (encode_char c ++ bs) ≡ Option.map (◌∷◌ c) (decode_from idle bs)
unfolding encode_char advance
decode_from-encode_char c bs h = elim (Bool-cases (ltb c 128)) [
  | inl a ↦ rw a (decode_emit idle c c bs (lead_one c (ltb→lt c 128 a)))
  | inr a ↦ elim (Bool-cases (ltb c 2048)) [
    | inl b ↦
        rw (a, b)
          (subst
            (λ t.
              decode_from idle ((192 + c / 64) ∷ (128 + c % 64) ∷ bs)
              ≡ Option.map (◌∷◌ t) (decode_from idle bs))
            (split_two c)
            (decode_two (c / 64) (c % 64) bs (ground arith) (ground arith) (omega arith)))
    | inr b ↦ elim (Bool-cases (ltb c 65536)) [
      | inl d ↦
          let r = range_three c (ground arith) (ltb→lt c 65536 d) h in
          rw (a, b, d)
            (subst
              (λ t.
                decode_from idle ((224 + c / 4096) ∷ (128 + c / 64 % 64) ∷ (128 + c % 64) ∷ bs)
                ≡ Option.map (◌∷◌ t) (decode_from idle bs))
              (split_three c)
              (decode_three (c / 4096) (c / 64 % 64) (c % 64) bs (ground arith) r.0 r.1
                (omega arith)))
      | inr d ↦
          let r = range_four c (ground arith) h in
          rw (a, b, d)
            (subst
              (λ t.
                decode_from idle (
                  (240 + c / 262144)
                  ∷ (128 + c / 4096 % 64)
                  ∷ (128 + c / 64 % 64)
                  ∷ (128 + c % 64)
                  ∷ bs)
                ≡ Option.map (◌∷◌ t) (decode_from idle bs))
              (split_four c)
              (decode_four (c / 262144) (c / 4096 % 64) (c / 64 % 64) (c % 64) bs (ground arith) r.0
                r.1 (omega arith) (omega arith)))
    ]
  ]
]

pub from_utf8-encode : (s : Str) → All IsScalar s → from_utf8 (encode s) ≡ some s
unfolding from_utf8 encode
from_utf8-encode [] h = refl
from_utf8-encode (c ∷ s) h =
    decode_from-encode_char c (encode s) h.0 ∙ ap (Option.map (◌∷◌ c)) (from_utf8-encode s h.1)

Outcome-cases :
    (o : Outcome) → ((d : Decoder) × (o ≡ more d)) ⊎ ((c : ℕ) × (o ≡ emit c)) ⊎ (o ≡ invalid)
Outcome-cases (more d) = inl (d, refl)
Outcome-cases (emit c) = inr (inl (c, refl))
Outcome-cases invalid = inr (inr refl)

map-eq-some :
    (c : ℕ) (o : Option Str) {s : Str}
    → Option.map (◌∷◌ c) o ≡ some s
    → (t : Str) × (o ≡ some t) × (s ≡ c ∷ t)
map-eq-some c none h = cc
map-eq-some c (some t) h = (t, refl, cc)

-- Where the strict conversion succeeds, the lossy one gives the same text.
lossy_from-decode_from :
    (d : Decoder) (bs : Bytes) (s : Str) → decode_from d bs ≡ some s → lossy_from d bs ≡ s
unfolding decode_from lossy_from
lossy_from-decode_from d [] s h = ground arith
lossy_from-decode_from d (b ∷ bs) s h = elim (Outcome-cases (advance d b)) [
  | inl (d', e) ↦ rw (e, lossy_from) (lossy_from-decode_from d' bs s (rw (e, decode_from) at h))
  | inr (inl (c, e)) ↦
      let (t, p, q) = map-eq-some c (decode_from idle bs) (rw (e, decode_from) at h) in
      rw (e, lossy_from, q) (ap (◌∷◌ c) (lossy_from-decode_from idle bs t p))
  | inr (inr e) ↦ let absent : none ≡ some s = rw (e, decode_from) at h in cc absent
]

pub from_utf8_lossy-from_utf8 :
    (bs : Bytes) (s : Str) → from_utf8 bs ≡ some s → from_utf8_lossy bs ≡ s
unfolding from_utf8 from_utf8_lossy
from_utf8_lossy-from_utf8 bs s = lossy_from-decode_from idle bs s
