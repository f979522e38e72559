-- ===== src/Websocket/Splitting.antt =====
-- websocket.rs: the loop of `split_bytes`, for a limit above 0 and for a limit of 0.
use trap.Shared.{
  ℕ, zero, suc, ◌+◌, ◌-◌, ◌≤◌, ◌<◌, ◌≡◌, refl, sym, ap, ◌∙◌, min, true, false, none, some, List, [],
  ◌∷◌, ◌++◌, append-nil, length, drop, concat, All, leb, ltb, ltb→lt, leb→le, lt→ltb,
  take-append-drop, length-take, Bool-cases, inl, inr, arith,
}
use trap.Text.Utf8.{Bytes}
use trap.Websocket.Builder.{FrameBuilder, usize_add, slice, split_loop, split_bytes}

-- The longest allocation of Rust, `isize::MAX` bytes.
abbrev pub isize_max : ℕ
isize_max = 9223372036854775807

-- The pieces of a payload: they make it up in order, and each fits the limit.
pub record IsSplit (size : ℕ) (bytes : Bytes) (chunks : List Bytes) : Type 0 where
  pub whole : concat chunks ≡ bytes
  pub sized : All (λ c. length c ≤ size) chunks
  pub nonempty : 0 < length chunks

pub drop_all : (n : ℕ) (xs : Bytes) → length xs ≤ n → drop n xs ≡ []
drop_all zero [] h = refl
drop_all zero (x ∷ xs) h = elim h [ ]
drop_all (suc n) [] h = refl
drop_all (suc n) (x ∷ xs) h = drop_all n xs (omega arith)

drop_nil : (n : ℕ) → drop {A = ℕ} n [] ≡ []
drop_nil zero = refl
drop_nil (suc n) = refl

drop-drop : (m n k : ℕ) (xs : Bytes) → m + n ≡ k → drop n (drop m xs) ≡ drop k xs
drop-drop zero n k xs e = let e' : n ≡ k = omega arith in rw e'
drop-drop (suc m) n k [] e = drop_nil n ∙ sym (drop_nil k)
drop-drop (suc m) n zero (x ∷ xs) e = absurd (omega arith)
drop-drop (suc m) n (suc k) (x ∷ xs) e = drop-drop m n k xs (omega arith)

pub slice_rest :
    (start end : ℕ) (bytes : Bytes)
    → start ≤ end
    → slice bytes start end ++ drop end bytes ≡ drop start bytes
slice_rest start end bytes h =
    ap (◌++◌ (slice bytes start end)) (sym (drop-drop start (end - start) end bytes (omega arith)))
    ∙ take-append-drop (end - start) (drop start bytes)

length-slice-le : (start end : ℕ) (bytes : Bytes) → length (slice bytes start end) ≤ end - start
length-slice-le start end bytes = omega (arith, length-take (end - start) (drop start bytes))

-- The end of a piece: past its start, within the limit and within the payload. The sum does not wrap.
pub piece_end :
    (start size len : ℕ)
    → 0 < size
    → size < len
    → len ≤ isize_max
    → start < len
    → let end = min (usize_add start size) len in (start < end) × (end ≤ start + size) × (end ≤ len)
piece_end start size len p q r s = omega arith

-- Enough fuel gives the pieces of what is left.
split_loop_total :
    (fuel size : ℕ) (bytes : Bytes) (start : ℕ)
    → 0 < size
    → size < length bytes
    → length bytes ≤ isize_max
    → start ≤ length bytes
    → length bytes - start < fuel
    → (chunks : List Bytes) × (split_loop fuel size bytes start ≡ some chunks)
      × (concat chunks ≡ drop start bytes)
      × All (λ c. length c ≤ size) chunks
      × (start < length bytes → 0 < length chunks)
unfolding split_loop
split_loop_total zero size bytes start p q r s f = absurd (omega arith)
split_loop_total (suc fuel) size bytes start p q r s f =
    elim (Bool-cases (ltb start (length bytes))) [
      | inr e ↦ (
        [],
        rw (e, split_loop),
        sym (drop_all start bytes (ground arith)),
        tt,
        λ l. let t : true ≡ false = sym (lt→ltb start (length bytes) l) ∙ e in cc,
      )
      | inl e ↦
          let (a, b, c) = piece_end start size (length bytes) p q r (ltb→lt start _ e) in
          let end = min (usize_add start size) (length bytes) in
          let (chunks, run, whole, sized, _) =
            split_loop_total fuel size bytes end p q r c (omega arith) in
          (
            slice bytes start end ∷ chunks,
            rw (e, split_loop, run),
            ap (◌++◌ (slice bytes start end)) whole ∙ slice_rest start end bytes (omega arith),
            (omega (arith, length-slice-le start end bytes), sized),
            λ l. omega arith,
          )
    ]

-- With a limit above 0, the cutting of a payload ends, with pieces that make the payload up in order
-- and that each fit the limit.
pub split_bytes_total :
    (b : FrameBuilder) (bytes : Bytes)
    → 0 < b.max_frame_size
    → length bytes ≤ isize_max
    → (chunks : List Bytes) × (split_bytes b bytes ≡ some chunks)
      × IsSplit b.max_frame_size bytes chunks
unfolding split_bytes
split_bytes_total b bytes p r = elim (Bool-cases (leb (length bytes) b.max_frame_size)) [
  | inl e ↦ (
    bytes ∷ [],
    rw (e, split_bytes),
    record { whole = append-nil bytes; sized = (leb→le _ _ e, tt); nonempty = omega arith },
  )
  | inr e ↦
      let (chunks, run, whole, sized, filled) =
        split_loop_total (suc (length bytes)) b.max_frame_size bytes 0 p (ground arith) r
          (omega arith) (omega arith) in
      (
        chunks,
        rw (e, split_bytes, run),
        record { whole = whole; sized = sized; nonempty = filled (ground arith) },
      )
]

-- With a limit of 0 the loop never gets past a place inside a payload that Rust can hold, whatever the
-- fuel.
pub split_loop_zero :
    (fuel : ℕ) (bytes : Bytes) (start : ℕ)
    → start < length bytes
    → length bytes ≤ isize_max
    → split_loop fuel 0 bytes start ≡ none
unfolding split_loop
split_loop_zero zero bytes start h r = refl
split_loop_zero (suc fuel) bytes start h r =
    let e : min (usize_add start 0) (length bytes) ≡ start = omega arith in
    rw (lt→ltb start (length bytes) h, split_loop, e, split_loop_zero fuel bytes start h r)
