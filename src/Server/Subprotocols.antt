-- ===== src/Server/Subprotocols.antt =====
-- scope.rs: the subprotocols that a WebSocket scope offers.
use trap.Shared.{
  ℕ, ◌≡◌, refl, ap, sym, subst, ◌∙◌, ◌≢◌, inl, inr, Bool, true, false, List, [], ◌∷◌, ◌++◌, All,
  ◌==◌, if◌then◌else◌, list_eq, Bool-cases, arith,
}
use trap.Text.Utf8.{Str, Bytes, str, from_utf8_lossy}
use trap.Server.Scopes.{is_whitespace, retain, push_front, split, lower, subprotocols_of}

-- The character is neither whitespace nor a comma.
abbrev pub IsTokenChar : ℕ → Type 0
IsTokenChar c = (is_whitespace c ≡ false) × (c ≢ 44)

-- The second text is the first without its whitespace.
pub data Strips : Str → Str → Type 0 where
  at_end : Strips [] []
  dropped : {c : ℕ} {s t : Str} → is_whitespace c ≡ true → Strips s t → Strips (c ∷ s) t
  kept : {c : ℕ} {s t : Str} → is_whitespace c ≡ false → Strips s t → Strips (c ∷ s) (c ∷ t)

-- Texts with a comma between each two.
abbrev pub joined : List Str → Str
joined [] = []
joined (s ∷ []) = s
joined (s ∷ t ∷ rest) = s ++ 44 ∷ joined (t ∷ rest)

abbrev pub IsNonempty : List Str → Type 0
IsNonempty [] = ⊥
IsNonempty (_ ∷ _) = Unit {0}

-- What the fields of a request offer: nothing, but for the fields named `Sec-WebSocket-Protocol` in
-- whatever letter case. The value of such a field, but for its whitespace, is a list of texts without
-- commas, with a comma between each two.
pub data Offers : List (Str × Bytes) → List Str → Type 0 where
  nothing : Offers [] []
  other :
      {name : Str} {value : Bytes} {rest : List (Str × Bytes)} {offers : List Str}
      → list_eq (lower name) (str "sec-websocket-protocol") ≡ false
      → Offers rest offers
      → Offers ((name, value) ∷ rest) offers
  offering :
      {name : Str} {value : Bytes} {rest : List (Str × Bytes)} {offers : List Str}
      (pieces : List Str)
      → list_eq (lower name) (str "sec-websocket-protocol") ≡ true
      → IsNonempty pieces
      → All (All IsTokenChar) pieces
      → Strips (from_utf8_lossy value) (joined pieces)
      → Offers rest offers
      → Offers ((name, value) ∷ rest) (pieces ++ offers)

Strips-retain : (s : Str) → Strips s (retain s)
unfolding retain
Strips-retain [] = at_end
Strips-retain (c ∷ s) = elim (Bool-cases (is_whitespace c)) [
  | inl e ↦ rw e (dropped e (Strips-retain s))
  | inr e ↦ rw e (kept e (Strips-retain s))
]

retain-All : (s : Str) → All (λ c. is_whitespace c ≡ false) (retain s)
unfolding retain
retain-All [] = tt
retain-All (c ∷ s) = go (is_whitespace c) refl (retain-All s)
  where
    go :
        (b : Bool)
        → is_whitespace c ≡ b
        → All (λ c. is_whitespace c ≡ false) (retain s)
        → All (λ c. is_whitespace c ≡ false) (if b then retain s else c ∷ retain s)
    go true e h = h
    go false e h = (e, h)

push_front-All :
    (c : ℕ) (ss : List Str)
    → IsTokenChar c
    → All (All IsTokenChar) ss
    → All (All IsTokenChar) (push_front c ss)
push_front-All c [] h hs = ((h, hs), hs)
push_front-All c (s ∷ rest) h hs = ((h, hs.0), hs.1)

push_front-IsNonempty : (c : ℕ) (ss : List Str) → IsNonempty (push_front c ss)
push_front-IsNonempty c [] = tt
push_front-IsNonempty c (s ∷ rest) = tt

split_comma : (c : ℕ) (s : Str) → (c == 44) ≡ true → split (c ∷ s) ≡ [] ∷ split s
unfolding split
split_comma c s e = rw e

split_other : (c : ℕ) (s : Str) → (c == 44) ≡ false → split (c ∷ s) ≡ push_front c (split s)
unfolding split
split_other c s e = rw e

not_comma : (c : ℕ) → (c == 44) ≡ false → c ≢ 44
not_comma c e = ground arith

split-All : (s : Str) → All (λ c. is_whitespace c ≡ false) s → All (All IsTokenChar) (split s)
unfolding split
split-All [] h = (h, h)
split-All (c ∷ s) h = elim (Bool-cases (c == 44)) [
  | inl e ↦ subst (All (All IsTokenChar)) (sym (split_comma c s e)) (tt, split-All s h.1)
  | inr e ↦
      subst (All (All IsTokenChar)) (sym (split_other c s e))
        (push_front-All c (split s) (h.0, not_comma c e) (split-All s h.1))
]

split-IsNonempty : (s : Str) → IsNonempty (split s)
unfolding split
split-IsNonempty [] = tt
split-IsNonempty (c ∷ s) = elim (Bool-cases (c == 44)) [
  | inl e ↦ subst IsNonempty (sym (split_comma c s e)) tt
  | inr e ↦ subst IsNonempty (sym (split_other c s e)) (push_front-IsNonempty c (split s))
]

joined-empty : (ss : List Str) → IsNonempty ss → joined ([] ∷ ss) ≡ 44 ∷ joined ss
joined-empty [] h = absurd h
joined-empty (s ∷ ss) h = refl

joined-push_front : (c : ℕ) (ss : List Str) → joined (push_front c ss) ≡ c ∷ joined ss
joined-push_front c [] = refl
joined-push_front c (s ∷ []) = refl
joined-push_front c (s ∷ t ∷ rest) = refl

is_comma : (c : ℕ) → (c == 44) ≡ true → 44 ≡ c
is_comma c e = ground arith

joined-split : (s : Str) → joined (split s) ≡ s
unfolding split
joined-split [] = refl
joined-split (c ∷ s) = elim (Bool-cases (c == 44)) [
  | inl e ↦
      ap joined (split_comma c s e)
      ∙ joined-empty (split s) (split-IsNonempty s)
      ∙ ap (λ z. z ∷ joined (split s)) (is_comma c e)
      ∙ ap (c ∷◌) (joined-split s)
  | inr e ↦
      ap joined (split_other c s e) ∙ joined-push_front c (split s) ∙ ap (c ∷◌) (joined-split s)
]

-- The subprotocols that the scope lists are those that the request offers, one after another: of each
-- `Sec-WebSocket-Protocol` field, whatever the letter case of its name, the texts between the commas of
-- its value, without whitespace, and of no other field any.
pub subprotocols_of_lem : (headers : List (Str × Bytes)) → Offers headers (subprotocols_of headers)
unfolding subprotocols_of
subprotocols_of_lem [] = nothing
subprotocols_of_lem ((name, value) ∷ rest) =
    let text = retain (from_utf8_lossy value) in
    elim (Bool-cases (list_eq (lower name) (str "sec-websocket-protocol"))) [
      | inl e ↦ rw e (
          offering (split text) e (split-IsNonempty text)
            (split-All text (retain-All (from_utf8_lossy value)))
            (subst (Strips (from_utf8_lossy value)) (sym (joined-split text))
              (Strips-retain (from_utf8_lossy value)))
            (subprotocols_of_lem rest))
      | inr e ↦ rw e (other e (subprotocols_of_lem rest))
    ]
