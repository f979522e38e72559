-- ===== src/Websocket/Blocks.antt =====
-- websocket.rs: `split_bytes` against a description of the pieces that leaves no choice.
use mathlib.Core.Option
use trap.Shared.{
  ℕ, zero, suc, ◌+◌, ◌-◌, ◌≤◌, ◌<◌, ◌≡◌, refl, sym, ap, ◌∙◌, subst, min, inl, inr, false, some,
  List, [], ◌∷◌, ◌++◌, append-nil, length, length-append, drop, leb, ltb, ltb→lt, leb→le, lt→ltb,
  length-take, length-drop, Bool-cases, arith, ◌↔◌,
}
use trap.Text.Utf8.{Bytes}
use trap.Websocket.Builder.{FrameBuilder, usize_add, slice, split_loop, split_bytes}
use trap.Websocket.Splitting.{isize_max, slice_rest, drop_all, piece_end}

-- A payload that fits the limit is one piece. Of a longer one, the first `size` bytes are a piece, and
-- the pieces of the rest follow.
pub data Blocks (size : ℕ) : Bytes → List Bytes → Type 0 where
  whole : (b : Bytes) → length b ≤ size → Blocks size b (b ∷ [])
  first :
      (b p rest : Bytes) (cs : List Bytes)
      → b ≡ p ++ rest
      → length p ≡ size
      → 0 < length rest
      → Blocks size rest cs
      → Blocks size b (p ∷ cs)

prefix_unique : (p q r s : Bytes) → length p ≡ length q → p ++ r ≡ q ++ s → (p ≡ q) × (r ≡ s)
prefix_unique [] [] r s l e = (refl, e)
prefix_unique [] (y ∷ q) r s l e = absurd (omega arith)
prefix_unique (x ∷ p) [] r s l e = absurd (omega arith)
prefix_unique (x ∷ p) (y ∷ q) r s l e =
    let h : x ≡ y = cc e in
    let (a, b) = prefix_unique p q r s (omega arith) (cc e) in (rw (h, a) refl, b)

Blocks-unique :
    (size : ℕ) (b b' : Bytes) (cs ds : List Bytes)
    → b ≡ b'
    → Blocks size b cs
    → Blocks size b' ds
    → cs ≡ ds
Blocks-unique size b b' cs ds e (whole _ l) (whole _ l') = ap (λ z. z ∷ []) e
Blocks-unique size b b' cs ds e (whole _ l) (first _ p rest cs' f g h k) =
    let n = ap length (e ∙ f) ∙ length-append p rest in absurd (omega arith)
Blocks-unique size b b' cs ds e (first _ p rest cs' f g h k) (whole _ l) =
    let n = ap length (sym e ∙ f) ∙ length-append p rest in absurd (omega arith)
Blocks-unique size b b' cs ds e (first _ p rest cs' f g h k) (first _ q rest' ds' f' g' h' k') =
    let (i, j) = prefix_unique p q rest rest' (g ∙ sym g') (sym f ∙ e ∙ f') in
    rw (i, Blocks-unique size rest rest' cs' ds' j k k') refl

-- A piece that ends before the payload is full.
full_piece :
    (start size : ℕ) (bytes : Bytes)
    → start < length bytes
    → length bytes ≤ isize_max
    → size < length bytes
    → (let end = min (usize_add start size) (length bytes) in
        end < length bytes → length (slice bytes start end) ≡ size)
full_piece start size bytes s r q l =
    let end = min (usize_add start size) (length bytes) in
    let a = length-take (end - start) (drop start bytes) in
    let b = length-drop start bytes in omega arith

rest_nonempty : (n : ℕ) (bytes : Bytes) → n < length bytes → 0 < length (drop n bytes)
rest_nonempty n bytes h = let b = length-drop n bytes in omega arith

-- The last piece is all that is left.
last_piece :
    (start end : ℕ) (bytes : Bytes)
    → start ≤ end
    → length bytes ≤ end
    → slice bytes start end ≡ drop start bytes
last_piece start end bytes a l =
    sym (append-nil (slice bytes start end))
    ∙ ap (◌++◌ (slice bytes start end)) (sym (drop_all end bytes l))
    ∙ slice_rest start end bytes a

last_fits :
    (start size : ℕ) (bytes : Bytes)
    → length bytes ≤ start + size
    → length (drop start bytes) ≤ size
last_fits start size bytes h = let b = length-drop start bytes in omega arith

split_loop_end :
    (fuel size : ℕ) (bytes : Bytes) (start : ℕ)
    → 0 < fuel
    → ltb start (length bytes) ≡ false
    → split_loop fuel size bytes start ≡ some []
unfolding split_loop
split_loop_end zero size bytes start f e = absurd (omega arith)
split_loop_end (suc fuel) size bytes start f e = rw (e, split_loop) refl

-- The loop from a place inside the payload.
split_loop-Blocks :
    (fuel size : ℕ) (bytes : Bytes) (start : ℕ)
    → 0 < size
    → size < length bytes
    → length bytes ≤ isize_max
    → start < length bytes
    → length bytes - start < fuel
    → (chunks : List Bytes) × (split_loop fuel size bytes start ≡ some chunks)
      × Blocks size (drop start bytes) chunks
unfolding split_loop
split_loop-Blocks zero size bytes start p q r s f = absurd (omega arith)
split_loop-Blocks (suc fuel) size bytes start p q r s f =
    let (a, b, c) = piece_end start size (length bytes) p q r s in
    let end = min (usize_add start size) (length bytes) in
    elim (Bool-cases (ltb end (length bytes))) [
      | inl e ↦
          let (chunks, run, rest) =
            split_loop-Blocks fuel size bytes end p q r (ltb→lt end _ e) (omega arith) in
          (
            slice bytes start end ∷ chunks,
            rw (lt→ltb start (length bytes) s, split_loop, run),
            first _ (slice bytes start end) (drop end bytes) chunks
                (sym (slice_rest start end bytes (omega arith)))
                (full_piece start size bytes s r q (ltb→lt end _ e))
                (rest_nonempty end bytes (ltb→lt end _ e)) rest,
          )
      | inr e ↦
          let l : length bytes ≤ end = ground arith in
          (
            drop start bytes ∷ [],
            rw (
              lt→ltb start (length bytes) s,
              split_loop,
              split_loop_end fuel size bytes end (omega arith) e,
              last_piece start end bytes (omega arith) l,
            ),
            whole (drop start bytes) (last_fits start size bytes (omega arith)),
          )
    ]

split_bytes-some :
    (b : FrameBuilder) (bytes : Bytes)
    → 0 < b.max_frame_size
    → length bytes ≤ isize_max
    → (chunks : List Bytes) × (split_bytes b bytes ≡ some chunks)
      × Blocks b.max_frame_size bytes chunks
unfolding split_bytes
split_bytes-some b bytes p r = elim (Bool-cases (leb (length bytes) b.max_frame_size)) [
  | inl e ↦ (bytes ∷ [], rw (e, split_bytes), whole bytes (leb→le _ _ e))
  | inr e ↦
      let (chunks, run, k) =
        split_loop-Blocks (suc (length bytes)) b.max_frame_size bytes 0 p (ground arith) r
          (ground arith) (omega arith) in
      (chunks, rw (e, split_bytes, run), k)
]

-- With a limit above 0 and a payload that Rust can hold, what `split_bytes` gives is exactly the
-- division of the payload into pieces that are all as long as the limit but for the last one, which is
-- the rest.
pub split_bytes_iff :
    (b : FrameBuilder) (bytes : Bytes) (chunks : List Bytes)
    → 0 < b.max_frame_size
    → length bytes ≤ isize_max
    → (split_bytes b bytes ≡ some chunks) ↔ Blocks b.max_frame_size bytes chunks
split_bytes_iff b bytes chunks p r =
    let (cs, run, k) = split_bytes-some b bytes p r in
    (
      λ e. subst (Blocks b.max_frame_size bytes) (Option.some-injective _ _ (sym run ∙ e)) k,
      λ k'. run ∙ ap some (Blocks-unique b.max_frame_size bytes bytes cs chunks refl k k'),
    )
