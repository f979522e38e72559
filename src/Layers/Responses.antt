-- ===== src/Layers/Responses.antt =====
-- error_handler.rs: what a client gets where an inner service fails.
use trap.Shared.{ℕ, ◌≡◌, refl, ◌⊎◌, inl, inr, [], ◌∷◌, length, Result, ok, err, Result-cases}
use trap.Text.Utf8.{Bytes, str, encode}
use trap.Http.Library.{Response}
use trap.Layers.ErrorHandler.{
  BoxError, overloaded, elapsed, other, BoxBody, inner_body, full, decimal, plain_response,
  error_response, call,
}

-- The status that an error stands for.
abbrev pub status_of : BoxError → ℕ
status_of overloaded = 503
status_of elapsed = 504
status_of (other _) = 500

-- The body is a text whose length the headers give, and the status stands for the error.
abbrev pub IsAnswerTo : {B : Type 0} → BoxError → Response (BoxBody B) → Type 0
IsAnswerTo e r =
    (r.head.status ≡ status_of e)
    × ((text : Bytes) × (r.body ≡ full text)
        × (r.head.headers
            ≡ (str "content-length", encode (decimal (length text)))
              ∷ (str "content-type", str "text/plain")
              ∷ []))

abbrev pub IsPassedOn : {B : Type 0} → Response B → Response (BoxBody B) → Type 0
IsPassedOn response r = (r.head ≡ response.head) × (r.body ≡ inner_body response.body)

error_response-IsAnswerTo : {B : Type 0} (e : BoxError) → IsAnswerTo e (error_response {B = B} e)
unfolding error_response plain_response
error_response-IsAnswerTo overloaded = (refl, (encode (str "Service Unavailable"), refl, refl))
error_response-IsAnswerTo elapsed = (refl, (encode (str "Gateway Timeout"), refl, refl))
error_response-IsAnswerTo (other _) = (refl, (encode (str "Internal Server Error"), refl, refl))

-- The service never fails. An inner response passes with its head and its body as they are, and an
-- inner error becomes a response with the status that it stands for and a text as its body, whose
-- length in bytes the `content-length` field gives.
pub call_total :
    {Q B : Type 0} (inner : Q → Result (Response B) BoxError) (request : Q)
    → (r : Response (BoxBody B)) × (call inner request ≡ ok r)
      × (((response : Response B) × (inner request ≡ ok response) × IsPassedOn response r)
          ⊎ ((e : BoxError) × (inner request ≡ err e) × IsAnswerTo e r))
unfolding call
call_total inner request = elim (Result-cases (inner request)) [
  | inl (response, e) ↦ (
    record { head = response.head; body = inner_body response.body },
    rw (e, call),
    inl (response, e, (refl, refl)),
  )
  | inr (x, e) ↦ (error_response x, rw (e, call), inr (x, e, error_response-IsAnswerTo x))
]
