-- ===== src/Http/Breaking.antt =====
-- http.rs: what a reader of the response body gets when the application breaks off.
use trap.Shared.{
  ℕ, suc, ◌≤◌, ◌≡◌, refl, ap, ◌∙◌, some, true, List, [], ◌∷◌, ◌++◌, map, length, ok, err, inl, inr,
}
use trap.Text.Utf8.{Bytes}
use trap.Asgi.Spec.{AsgiSendEvent, http_response_body, new_http_response_body}
use trap.Errors.{ArasError, ArasResult, timeout_elapsed, unexpected_asgi_message, Debug}
use trap.Communication.Interface.{
  ReceiveFromAsgiApp, CommunicationResult, ApplicationResult, ready, application_result_into,
  timeout,
}
use trap.Communication.Waiting.{Arrives, timeout-cases, timeout_of_Arrives}
use trap.Http.Response.{ResponseBody, response_body, next_item, yield_item, poll_items}
use trap.Http.Relay.{next_part, poll_next}

-- Any event but a part of a body.
abbrev pub IsStray : AsgiSendEvent → Type 0
IsStray (http_response_body _) = ⊥
IsStray _ = Unit {0}

module _ {R : Type 0} ⦃receiver : ReceiveFromAsgiApp R⦄ ⦃debug : Debug AsgiSendEvent⦄ where
  -- The application sends parts of a body, each in time and with more to come, and then nothing in time,
  -- an event that is no part of a body, or it exits.
  pub data Breaks (limit : ℕ) : R → List Bytes → ArasError → Type 0 where
    late :
        {r : R}
        → ((a : CommunicationResult AsgiSendEvent) → ¬ Arrives limit (receiver.receive r).1 a)
        → Breaks limit r [] timeout_elapsed
    stray :
        {r : R} (m : AsgiSendEvent)
        → IsStray m
        → Arrives limit (receiver.receive r).1 (ok m)
        → Breaks limit r [] (unexpected_asgi_message (debug.debug m))
    exits :
        {r : R} (e : ApplicationResult)
        → Arrives limit (receiver.receive r).1 (err e)
        → Breaks limit r [] (application_result_into e)
    next :
        {r r' : R} {b : Bytes} {bs : List Bytes} {e : ArasError} (t : ℕ)
        → t ≤ limit
        → receiver.receive r ≡ (r', ready t (ok (new_http_response_body b true)))
        → Breaks limit r' bs e
        → Breaks limit r (b ∷ bs) e

  yield_stray :
      (b : ResponseBody R) (m : AsgiSendEvent)
      → IsStray m
      → (yield_item b (ok (ok m))).1 ≡ some (err (unexpected_asgi_message (debug.debug m)))
  unfolding yield_item
  yield_stray b (http_response_body _) i = absurd i
  yield_stray b m i = refl

  next_err :
      (limit : ℕ) (r : R) (a : ArasResult (CommunicationResult AsgiSendEvent)) (e : ArasError)
      → timeout limit (receiver.receive r).1 ≡ a
      → ((b : ResponseBody R) → (yield_item b a).1 ≡ some (err e))
      → (next_item (response_body limit r)).1 ≡ some (err e)
  unfolding next_item response_body
  next_err limit r a e h y =
      let b = record (response_body limit r) { receive_from_app = (receiver.receive r).0 } in
      ap (λ z. (yield_item b z).1) h ∙ y b

  -- The poll that meets the failure.
  last_item :
      (limit : ℕ) (r : R) (a : ArasResult (CommunicationResult AsgiSendEvent)) (e : ArasError)
      → timeout limit (receiver.receive r).1 ≡ a
      → ((b : ResponseBody R) → (yield_item b a).1 ≡ some (err e))
      → (poll_items 1 (response_body limit r)).1 ≡ err e ∷ []
  unfolding poll_items
  last_item limit r a e h y =
      let b = response_body limit r in
      let k =
        poll_next 0 b (next_item b).0 (err e)
          (ap (λ z. ((next_item b).0, z)) (next_err limit r a e h y)) in
      ap (λ z. z.1) k

  -- A reader of the body of an application that breaks off gets the parts that it has sent, in order,
  -- and then the error that says how it broke off.
  pub poll_items-Breaks :
      (limit : ℕ) (r : R) (bs : List Bytes) (e : ArasError)
      → Breaks limit r bs e
      → (poll_items (suc (length bs)) (response_body limit r)).1 ≡ map ok bs ++ err e ∷ []
  unfolding response_body yield_item
  poll_items-Breaks limit r _ _ (late n) = elim (timeout-cases limit (receiver.receive r).1) [
    | inl (a, w, _) ↦ absurd (n a w)
    | inr (e, _) ↦ last_item limit r _ _ e (λ b. refl)
  ]
  poll_items-Breaks limit r _ _ (stray m i w) =
      last_item limit r _ _ (timeout_of_Arrives limit (receiver.receive r).1 _ w)
        (λ b. yield_stray b m i)
  poll_items-Breaks limit r _ _ (exits e w) =
      last_item limit r _ _ (timeout_of_Arrives limit (receiver.receive r).1 _ w) (λ b. refl)
  poll_items-Breaks limit r _ e (next {r' = r'} {b = b} {bs = bs} t p h k) =
      ap (λ z. z.1) (poll_next (suc (length bs)) _ _ (ok b) (next_part limit t r r' b true p h))
      ∙ ap (λ z. ok b ∷ z) (poll_items-Breaks limit r' bs e k)
