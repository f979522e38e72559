-- ===== src/Communication/Waiting.antt =====
-- `tokio::time::timeout`: what arrives by the limit, and what does not.
use trap.Shared.{ℕ, ◌≤◌, ◌≡◌, refl, ◌⊎◌, inl, inr, ok, err, leb, leb→le, le→leb, Bool-cases, arith}
use trap.Errors.{timeout_elapsed}
use trap.Communication.Interface.{Awaited, ready, never, timeout}

module _ {A : Type 0} where
  -- The future resolves to the value by the limit.
  abbrev pub Arrives : ℕ → Awaited A → A → Type 0
  Arrives limit f a = (t : ℕ) × (t ≤ limit) × (f ≡ ready t a)

  pub timeout-cases :
      (limit : ℕ) (f : Awaited A)
      → ((a : A) × Arrives limit f a × (timeout limit f ≡ ok a))
        ⊎ ((timeout limit f ≡ err timeout_elapsed) × ((a : A) → ¬ Arrives limit f a))
  unfolding timeout
  timeout-cases limit (ready t a) = elim (Bool-cases (leb t limit)) [
    | inl e ↦ inl (a, (t, leb→le t limit e, refl), rw e)
    | inr e ↦ inr (rw e, λ b w. ground (arith, w.2))
  ]
  timeout-cases limit never = inr (refl, λ b w. cc (w.2))

  pub timeout_of_Arrives :
      (limit : ℕ) (f : Awaited A) (a : A) → Arrives limit f a → timeout limit f ≡ ok a
  unfolding timeout
  timeout_of_Arrives limit f a (t, h, e) = rw (e, timeout, le→leb t limit h)
