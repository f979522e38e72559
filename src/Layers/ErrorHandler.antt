-- ===== src/Layers/ErrorHandler.antt =====
-- `ErrorHandlerService`. A dynamic error is known by its type, as far as `is` asks for it.
use trap.Shared.{
  ℕ, zero, suc, ◌+◌, ◌/◌, ◌%◌, Bool, true, false, [], ◌∷◌, length, ltb, if◌then◌else◌, Result, ok,
  err,
}
use trap.Text.Utf8.{Str, Bytes, str, encode}
use trap.Http.Library.{Response}

pub data BoxError : Type 0 where
  overloaded : BoxError
  elapsed : BoxError
  other : Str → BoxError

-- `e.is::<Overloaded>()`, `e.is::<Elapsed>()`
abbrev is_overloaded : BoxError → Bool
is_overloaded overloaded = true
is_overloaded _ = false

abbrev is_elapsed : BoxError → Bool
is_elapsed elapsed = true
is_elapsed _ = false

-- The decimal digits of a number, in front of a text; the fuel bounds their count.
unfoldable pub decimal_from : ℕ → ℕ → Str → Str
decimal_from zero n rest = rest
decimal_from (suc fuel) n rest =
    let more = decimal_from fuel (n / 10) ((48 + n % 10) ∷ rest) in
    if ltb n 10 then (48 + n) ∷ rest else more

unfoldable pub decimal : ℕ → Str
unfolding decimal_from
decimal n = decimal_from (suc n) n []

-- `UnsyncBoxBody`: the body of an inner response, or a text at hand.
pub data BoxBody (B : Type 0) : Type 0 where
  inner_body : B → BoxBody B
  full : Bytes → BoxBody B

unfoldable pub plain_response : {B : Type 0} → ℕ → Str → Response (BoxBody B)
unfolding decimal
plain_response status body_text = record {
  head = record {
    status = status;
    headers =
        (str "content-length", encode (decimal (length (encode body_text))))
        ∷ (str "content-type", str "text/plain")
        ∷ [];
  };
  body = full (encode body_text);
}

unfoldable pub error_response : {B : Type 0} → BoxError → Response (BoxBody B)
unfolding plain_response
error_response e =
    if is_overloaded e
    then plain_response 503 (str "Service Unavailable")
    else if is_elapsed e
    then plain_response 504 (str "Gateway Timeout")
    else plain_response 500 (str "Internal Server Error")

-- `Service::call`, on what the inner service answers
unfoldable pub call :
    {Q B : Type 0} → (Q → Result (Response B) BoxError) → Q → Result (Response (BoxBody B)) BoxError
unfolding error_response
call inner request = elim (inner request) [
  | ok response ↦ ok (record { head = response.head; body = inner_body response.body })
  | err e ↦ ok (error_response e)
]
