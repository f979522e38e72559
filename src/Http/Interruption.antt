-- ===== src/Http/Interruption.antt =====
-- http.rs: the events of a `read_body` that is dropped after some of its sends.
use trap.Shared.{
  ℕ, zero, suc, ◌≡◌, refl, sym, ◌∙◌, ◌⊎◌, inl, inr, Option, Bool, true, false, [], ◌∷◌, append-nil,
  ok, err, Bool-cases, arith,
}
use trap.Text.Utf8.{Bytes}
use trap.Asgi.Spec.{new_http_request}
use trap.Errors.{ArasError}
use trap.Communication.Interface.{SendToAsgiApp, timeout}
use trap.Communication.Waiting.{timeout-cases}
use trap.Http.Library.{BodyStream, end, part, broken}
use trap.Http.Request.{is_none_or_positive, arrival, send_request}
use trap.Http.Handler.{interrupted}
use trap.Http.Framing.{
  Bounds, items, hint_zero, HasHonestHints, Delivers, SendsWith, send_request-cases, nothing, stays,
  after_part,
}

hint-cases : (u : Option ℕ) (n : ℕ) → Bounds u n → (n ≡ 0) ⊎ (is_none_or_positive u ≡ true)
hint-cases u n h = elim (Bool-cases (is_none_or_positive u)) [
  | inl m ↦ inr m
  | inr m ↦ inl (hint_zero u n m h)
]

module _ {S : Type 0} ⦃sender : SendToAsgiApp S⦄ where
  -- A reading that is dropped behaves as one that has not succeeded.
  interrupted_end :
      (k limit : ℕ) (t : Option ℕ) (s : S) → Delivers s [] (interrupted k limit false (end t) s)
  unfolding interrupted
  interrupted_end zero limit t s = stays s
  interrupted_end (suc k) limit t s = elim (timeout-cases limit (arrival t)) [
    | inl (u, _, e) ↦ rw (e, interrupted) (stays s)
    | inr (e, _) ↦ rw (e, interrupted) (stays s)
  ]

  interrupted_last :
      (k limit : ℕ) (t : Option ℕ) (b : Bytes) (u : Option ℕ) (rest : BodyStream) (s s1 : S)
      → items rest ≡ 0
      → Delivers s (new_http_request b false ∷ []) s1
      → SendsWith (part t b u rest) s (interrupted k limit false rest s1) false
  interrupted_last k limit t b u (end t') s s1 z d = (
    new_http_request b false ∷ [],
    interrupted_end k limit t' s1 ∙ append-nil (sender.delivered s1) ∙ d,
    inr (refl, refl),
    λ _. (refl, refl),
  )
  interrupted_last k limit t b u (part _ _ _ _) s s1 z d = absurd (omega arith)
  interrupted_last k limit t b u (broken _ _ _) s s1 z d = absurd (omega arith)

  interrupted_sent :
      (k limit : ℕ) (t : Option ℕ) (b : Bytes) (u : Option ℕ) (rest : BodyStream) (s s1 : S)
      (m : Bool)
      → (m ≡ false → items rest ≡ 0)
      → Delivers s (new_http_request b m ∷ []) s1
      → SendsWith rest s1 (interrupted k limit true rest s1) false
      → SendsWith (part t b u rest) s (interrupted k limit m rest s1) false
  interrupted_sent k limit t b u rest s s1 true z d ih = after_part t b u rest s s1 _ _ d ih
  interrupted_sent k limit t b u rest s s1 false z d ih =
      interrupted_last k limit t b u rest s s1 (z refl) d

  interrupted_open_end :
      (k limit : ℕ) (t : Option ℕ) (s : S)
      → SendsWith (end t) s (interrupted (suc k) limit true (end t) s) false
  unfolding interrupted
  interrupted_open_end k limit t s = elim (timeout-cases limit (arrival t)) [
    | inl (v, _, e) ↦
        rw (e, interrupted)
          (elim (send_request-cases [] false s) [
            | inl (o, d) ↦ (new_http_request [] false ∷ [], d, inr (refl, refl), λ _. (refl, refl))
            | inr (x, o, d) ↦ nothing (end t) s _ d
          ])
    | inr (e, _) ↦ rw (e, interrupted) (nothing (end t) s s (stays s))
  ]

  interrupted_part_late :
      (k limit : ℕ) (t : Option ℕ) (b : Bytes) (u : Option ℕ) (rest : BodyStream) (s : S)
      {x : ArasError}
      → timeout limit (arrival t) ≡ err x
      → interrupted (suc k) limit true (part t b u rest) s ≡ s
  unfolding interrupted
  interrupted_part_late k limit t b u rest s e = rw (e, interrupted)

  interrupted_part_refused :
      (k limit : ℕ) (t : Option ℕ) (b : Bytes) (u : Option ℕ) (rest : BodyStream) (s : S)
      {v : Unit {0}} {x : ArasError}
      → timeout limit (arrival t) ≡ ok v
      → (send_request b (is_none_or_positive u) s).1 ≡ err x
      → interrupted (suc k) limit true (part t b u rest) s
        ≡ (send_request b (is_none_or_positive u) s).0
  unfolding interrupted
  interrupted_part_refused k limit t b u rest s e o = ground arith

  interrupted_part_sent :
      (k limit : ℕ) (t : Option ℕ) (b : Bytes) (u : Option ℕ) (rest : BodyStream) (s : S)
      {v : Unit {0}}
      → timeout limit (arrival t) ≡ ok v
      → (send_request b (is_none_or_positive u) s).1 ≡ ok tt
      → interrupted (suc k) limit true (part t b u rest) s
        ≡ interrupted k limit
            (is_none_or_positive u)
            rest
            (send_request b (is_none_or_positive u) s).0
  unfolding interrupted
  interrupted_part_sent k limit t b u rest s e o = ground arith

  interrupted_part :
      (k limit : ℕ) (t : Option ℕ) (b : Bytes) (u : Option ℕ) (rest : BodyStream) (s : S)
      → items rest ≡ 0 ⊎ (is_none_or_positive u ≡ true)
      → ((s1 : S) → SendsWith rest s1 (interrupted k limit true rest s1) false)
      → SendsWith (part t b u rest) s (interrupted (suc k) limit true (part t b u rest) s) false
  interrupted_part k limit t b u rest s h ih = elim (timeout-cases limit (arrival t)) [
    | inr (e, _) ↦
        rw (interrupted_part_late k limit t b u rest s e) (nothing (part t b u rest) s s (stays s))
    | inl (v, _, e) ↦ elim (send_request-cases b (is_none_or_positive u) s) [
      | inr (x, o, d) ↦
          rw (interrupted_part_refused k limit t b u rest s e o) (nothing (part t b u rest) s _ d)
      | inl (o, d) ↦ rw (interrupted_part_sent k limit t b u rest s e o) (
          interrupted_sent k limit t b u rest s _ (is_none_or_positive u)
            (λ z. elim h [ inl e0 ↦ e0 | inr m ↦ let no_way : true ≡ false = sym m ∙ z in cc ]) d
            (ih _))
    ]
  ]

  pub interrupted-SendsWith :
      (k limit : ℕ) (stream : BodyStream) (s : S)
      → HasHonestHints stream
      → SendsWith stream s (interrupted k limit true stream s) false
  unfolding interrupted
  interrupted-SendsWith zero limit stream s h = nothing stream s s (stays s)
  interrupted-SendsWith (suc k) limit (end t) s h = interrupted_open_end k limit t s
  interrupted-SendsWith (suc k) limit (broken t text rest) s h =
      nothing (broken t text rest) s s (stays s)
  interrupted-SendsWith (suc k) limit (part t b u rest) s (h, hs) =
      interrupted_part k limit t b u rest s (hint-cases u (items rest) h)
        (λ s1. interrupted-SendsWith k limit rest s1 hs)
