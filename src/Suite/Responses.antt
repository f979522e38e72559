-- ===== src/Suite/Responses.antt =====
-- The tests of aras/src/protocols/http.rs that read the response, in whatever order the two futures of a
-- handler resolve.
use trap.Shared.{
  ℕ, ◌≡◌, refl, true, false, Option, none, some, List, [], ◌∷◌, ◌++◌, ok, err, list_eq,
  if◌then◌else◌,
}
use trap.Text.Utf8.{Str, Bytes, str, from_utf8}
use trap.Asgi.Events.{Headers}
use trap.Asgi.Spec.{
  AsgiSendEvent, new_http_response_start, new_http_response_body, new_shutdown_complete,
}
use trap.Errors.{ArasResult, custom, to_string}
use trap.Communication.Interface.{CommunicationResult, error_into}
use trap.Http.Library.{Response, status, body, header}
use trap.Http.Response.{ResponseBody, poll_items}
use trap.Http.Handler.{Order, request_first, response_first, handle}
use trap.Mocks.{
  DeterministicReceiveFromApp, send_to_app_fail, send_to_app_collector, deterministic_receive,
  from_secs, from_millis,
}
use trap.Examples.Fixtures.{http_crate, link_of}
use trap.Suite.{IsOkAnd, IsErrAnd, debug_derived}
use trap.Suite.Http.{http_handler, build_request}

-- `BodyExt::collect`: the bytes of all items, or the first error.
abbrev collect : List (ArasResult Bytes) → ArasResult Bytes
collect [] = ok []
collect (err e ∷ items) = err e
collect (ok b ∷ items) = elim (collect items) [ ok rest ↦ ok (b ++ rest) | err e ↦ err e ]

-- The first ten polls reach the end or an error in every test.
abbrev collected : ResponseBody DeterministicReceiveFromApp → ArasResult Bytes
collected b = collect (poll_items 10 b).1

abbrev response_to_body_string :
    Response (ResponseBody DeterministicReceiveFromApp) → ArasResult (Option Str)
response_to_body_string r = elim (collected r.body) [ ok b ↦ ok (from_utf8 b) | err e ↦ err e ]

-- `HeaderMap::get`
abbrev get : Bytes → Headers → Option Bytes
get name [] = none
get name ((k, v) ∷ rest) = if list_eq name k then some v else get name rest

-- An exchange with an empty body, whose application gives the events.
abbrev exchange :
    ℕ
    → Order
    → List (CommunicationResult AsgiSendEvent)
    → ArasResult (Response (ResponseBody DeterministicReceiveFromApp))
exchange limit order events =
    (handle order (http_handler limit) (link_of events) (build_request true [])).1

abbrev TestResponseOk : Type 0
TestResponseOk =
    (order : Order)
    → IsOkAnd
        (λ response.
          (response.head.status ≡ 200)
          × (response_to_body_string response ≡ ok (some (str "app sent this body"))))
        (exchange (from_secs 10) order (
          ok (new_http_response_start 200 [])
          ∷ ok (new_http_response_body (str "app sent this body") false)
          ∷ []))

test_response_ok : TestResponseOk
unfolding handle status body poll_items from_utf8
test_response_ok request_first = (refl, refl)
test_response_ok (response_first k) = (refl, refl)

abbrev TestBodySentInParts : Type 0
TestBodySentInParts =
    (order : Order)
    → IsOkAnd
        (λ response.
          (response.head.status ≡ 200)
          × (response_to_body_string response ≡ ok (some (str "part 1 part 2"))))
        (exchange (from_secs 10) order (
          ok (new_http_response_start 200 [])
          ∷ ok (new_http_response_body (str "part 1 ") true)
          ∷ ok (new_http_response_body (str "part 2") false)
          ∷ []))

test_body_sent_in_parts : TestBodySentInParts
unfolding handle status body poll_items from_utf8
test_body_sent_in_parts request_first = (refl, refl)
test_body_sent_in_parts (response_first k) = (refl, refl)

abbrev TestHeadersOk : Type 0
TestHeadersOk =
    (order : Order)
    → IsOkAnd
        (λ response.
          (response.head.status ≡ 200)
          × (get (str "test") response.head.headers ≡ some (str "header"))
          × (get (str "another") response.head.headers ≡ some (str "header")))
        (exchange (from_secs 10) order (
          ok (
            new_http_response_start 200
              ((str "test", str "header") ∷ (str "another", str "header") ∷ []))
          ∷ ok (new_http_response_body [] false)
          ∷ []))

test_headers_ok : TestHeadersOk
unfolding handle status body header
test_headers_ok request_first = (refl, refl, refl)
test_headers_ok (response_first k) = (refl, refl, refl)

abbrev failing : CommunicationResult AsgiSendEvent
failing = err (error_into (to_string (custom (str "ReceiveFromApp failed"))))

abbrev TestReceiveFromFails : Type 0
TestReceiveFromFails =
    (order : Order)
    → IsErrAnd (λ e. to_string e ≡ str "ReceiveFromApp failed")
        (exchange (from_secs 10) order (failing ∷ []))

test_receive_from_fails : TestReceiveFromFails
unfolding handle to_string error_into
test_receive_from_fails request_first = refl
test_receive_from_fails (response_first k) = refl

abbrev TestReceiveFromFailsWhileStreamingBody : Type 0
TestReceiveFromFailsWhileStreamingBody =
    (order : Order)
    → IsOkAnd
        (λ response.
          IsErrAnd (λ e. to_string e ≡ str "ReceiveFromApp failed") (collected response.body))
        (exchange (from_secs 10) order (
          ok (new_http_response_start 200 [])
          ∷ ok (new_http_response_body (str "part 1 ") true)
          ∷ failing
          ∷ []))

test_receive_from_fails_while_streaming_body : TestReceiveFromFailsWhileStreamingBody
unfolding handle status body poll_items to_string error_into
test_receive_from_fails_while_streaming_body request_first = refl
test_receive_from_fails_while_streaming_body (response_first k) = refl

abbrev TestInvalidAsgiMessageReceivedWhileStreamingBody : Type 0
TestInvalidAsgiMessageReceivedWhileStreamingBody =
    (order : Order)
    → IsOkAnd
        (λ response.
          IsErrAnd
            (λ e.
              to_string e
              ≡ str
                  "Unexpected ASGI message received. ShutdownComplete(LifespanShutdownCompleteEvent)")
            (collected response.body))
        (exchange (from_secs 10) order (
          ok (new_http_response_start 200 [])
          ∷ ok (new_http_response_body (str "part 1 ") true)
          ∷ ok new_shutdown_complete
          ∷ []))

test_invalid_asgi_message_received_while_streaming_body :
    TestInvalidAsgiMessageReceivedWhileStreamingBody
unfolding handle status body poll_items to_string
test_invalid_asgi_message_received_while_streaming_body request_first = refl
test_invalid_asgi_message_received_while_streaming_body (response_first k) = refl

abbrev TestBackpressureTimeout : Type 0
TestBackpressureTimeout =
    (order : Order)
    → IsErrAnd (λ e. to_string e ≡ str "ASGI await timeout elapsed")
        (exchange (from_millis 1) order [])

test_backpressure_timeout : TestBackpressureTimeout
unfolding handle to_string
test_backpressure_timeout request_first = refl
test_backpressure_timeout (response_first k) = refl
