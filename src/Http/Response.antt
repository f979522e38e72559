-- ===== src/Http/Response.antt =====
-- `HTTPHandler::make_response`: the application's events become a response whose body is a stream.
use trap.Shared.{
  ℕ, zero, suc, Option, none, some, Bool, true, false, ◌||◌, not, List, [], ◌∷◌, if◌then◌else◌, ok,
  err, map_err,
}
use trap.Text.Utf8.{Bytes}
use trap.Asgi.Events.{Headers}
use trap.Asgi.Spec.{AsgiSendEvent, http_response_start, http_response_body}
use trap.Errors.{ArasResult, http, unexpected_asgi_message, Debug}
use trap.Communication.Interface.{
  CommunicationResult, ReceiveFromAsgiApp, timeout, application_result_into,
}
use trap.Http.Library.{HttpCrate, Response, Builder, builder, status, header, body}

-- The state of the `async_stream`: its captured variables, and whether it has returned.
pub record ResponseBody (R : Type 0) : Type 0 where
  pub more_data : Bool
  pub ended : Bool
  pub timeout_for_stream : ℕ
  pub receive_from_app : R

-- `for (key, value) in headers { builder = builder.header(key, value) }`
unfoldable pub add_headers : ⦃http : HttpCrate⦄ → Headers → Builder → Builder
add_headers [] b = b
add_headers ((k, v) ∷ rest) b = add_headers rest (header k v b)

module _ {R : Type 0} ⦃receiver : ReceiveFromAsgiApp R⦄ ⦃debug : Debug AsgiSendEvent⦄ where
  -- The `match` in the stream: what is yielded, and the stream's next state. A timeout leaves the
  -- stream through `?`, which yields the error and returns.
  unfoldable pub yield_item :
      ResponseBody R
      → ArasResult (CommunicationResult AsgiSendEvent)
      → ResponseBody R × Option (ArasResult Bytes)
  unfolding application_result_into
  yield_item b (ok (ok (http_response_body msg))) =
      (record b { more_data = msg.more_body }, some (ok msg.body))
  yield_item b (ok (ok msg)) = (b, some (err (unexpected_asgi_message (debug.debug msg))))
  yield_item b (ok (err e)) = (b, some (err (application_result_into e)))
  yield_item b (err e) = (record b { ended = true }, some (err e))

  -- One poll of the stream to its next item; `none` is its end.
  unfoldable pub next_item : ResponseBody R → ResponseBody R × Option (ArasResult Bytes)
  unfolding yield_item timeout
  next_item b =
      if b.ended || not b.more_data
      then (record b { ended = true }, none)
      else (let (r, received) = receiver.receive b.receive_from_app in
          yield_item (record b { receive_from_app = r }) (timeout b.timeout_for_stream received))

  unfoldable pub response_body : ℕ → R → ResponseBody R
  response_body limit r = record {
    more_data = true;
    ended = false;
    timeout_for_stream = limit;
    receive_from_app = r;
  }

  -- The `match` on the first event, and the response that is built from it.
  unfoldable pub build_response :
      ⦃http : HttpCrate⦄
      → ℕ
      → R
      → CommunicationResult AsgiSendEvent
      → ArasResult (Response (ResponseBody R))
  unfolding application_result_into add_headers response_body
  build_response limit r (ok (http_response_start msg)) =
      map_err http
        (body (response_body limit r) (add_headers msg.headers (status msg.status builder)))
  build_response limit r (ok msg) = err (unexpected_asgi_message (debug.debug msg))
  build_response limit r (err e) = err (application_result_into e)

  unfoldable pub make_response : ⦃http : HttpCrate⦄ → ℕ → R → ArasResult (Response (ResponseBody R))
  unfolding build_response timeout
  make_response limit r =
      let (r', received) = receiver.receive r in
      elim (timeout limit received) [ ok first ↦ build_response limit r' first | err e ↦ err e ]

  -- What a reader gets from the first `n` polls of the body.
  unfoldable pub poll_items : ℕ → ResponseBody R → ResponseBody R × List (ArasResult Bytes)
  unfolding next_item
  poll_items zero b = (b, [])
  poll_items (suc n) b =
      let (b', item) = next_item b in
      elim item [ none ↦ (b', []) | some i ↦ let (b'', rest) = poll_items n b' in (b'', i ∷ rest) ]
