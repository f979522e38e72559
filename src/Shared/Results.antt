-- ===== src/Shared/Results.antt =====
-- Rust's `Result`, and computations that pass a state along and stop at the first error (`?`).
use mathlib.Core.Path.{◌≡◌, refl}
use mathlib.Core.Logic.{◌⊎◌, inl, inr}
use mathlib.Core.Bool.{Bool, true, false}
use mathlib.Core.Option.{Option, none, some}

pub data Result {ℓ κ} (A : Type ℓ) (E : Type κ) : Type (ℓ ⊔ κ) where
  ok : A → Result A E
  err : E → Result A E

pub Result-cases :
    {A E : Type 0} (r : Result A E) → ((a : A) × (r ≡ ok a)) ⊎ ((e : E) × (r ≡ err e))
Result-cases (ok a) = inl (a, refl)
Result-cases (err e) = inr (e, refl)

abbrev pub is_ok : {A E : Type 0} → Result A E → Bool
is_ok (ok a) = true
is_ok (err e) = false

abbrev pub map_err {ℓ κ μ} :
    {A : Type ℓ} {E : Type κ} {F : Type μ} → (E → F) → Result A E → Result A F
map_err f (ok a) = ok a
map_err f (err e) = err (f e)

-- An `async fn` of result type `Result<A, E>` that owns or borrows the state `S`.
abbrev pub Run {ℓ} : Type ℓ → Type ℓ → Type ℓ → Type ℓ
Run S E A = S → S × Result A E

infixl 5 ◌>>=◌ ◌>>◌
abbrev pub ◌>>=◌ : {S E A B : Type 0} → Run S E A → (A → Run S E B) → Run S E B
◌>>=◌ m f s = let (s', r) = m s in elim r [ ok a ↦ f a s' | err e ↦ (s', err e) ]

abbrev pub ◌>>◌ : {S E B : Type 0} → Run S E (Unit {0}) → Run S E B → Run S E B
m >> k = m >>= λ _. k

abbrev pub pure : {S E A : Type 0} → A → Run S E A
pure a s = (s, ok a)

abbrev pub fail : {S E A : Type 0} → E → Run S E A
fail e s = (s, err e)

-- A value that is at hand, under `?`.
abbrev pub lift : {S E A : Type 0} → Result A E → Run S E A
lift r s = (s, r)

-- `Result::and_then`, which `?` also stands for, `Result::unwrap_or` and `Result::ok`
abbrev pub and_then {ℓ κ μ} :
    {A : Type ℓ} {B : Type κ} {E : Type μ} → Result A E → (A → Result B E) → Result B E
and_then (ok a) f = f a
and_then (err e) f = err e

abbrev pub ok_or {ℓ κ} : {A : Type ℓ} {E : Type κ} → A → Result A E → A
ok_or d (ok a) = a
ok_or d (err e) = d

abbrev pub to_option {ℓ κ} : {A : Type ℓ} {E : Type κ} → Result A E → Option A
to_option (ok a) = some a
to_option (err e) = none
