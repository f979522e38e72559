-- ===== src/Suite/Http.antt =====
-- The tests of aras/src/protocols/http.rs that read what the application gets, in whatever order the two
-- futures of a handler resolve and whatever the size hint of a body says.
use trap.Shared.{
  ℕ, ◌-◌, ◌≡◌, refl, Bool, true, false, Option, none, some, List, [], ◌∷◌, ◌++◌, length,
}
use trap.Text.Utf8.{Str, str, encode, from_utf8_lossy}
use trap.Asgi.Spec.{AsgiReceiveEvent, http_request, http_disconnect, new_http_disconnect}
use trap.Errors.{to_string}
use trap.Communication.Interface.{Link}
use trap.Http.Library.{BodyStream, end, part, status, body}
use trap.Http.Handler.{HttpHandler, Order, request_first, response_first, handle}
use trap.Mocks.{
  fails, SendToAppCollector, DeterministicReceiveFromApp, default_receive, send_to_app_fail,
  send_to_app_collector, deterministic_receive, from_secs,
}
use trap.Examples.Fixtures.{http_crate}
use trap.Suite.{IsOk, IsErrAnd, get_elem?, debug_derived}

abbrev pub http_handler : ℕ → HttpHandler
http_handler limit = record { timeout = limit }

-- The hint after the last part, which may say that nothing is left.
abbrev hint : Bool → Option ℕ
hint true = some 0
hint false = none

-- The body of a `String`, which has a part if it is not empty.
abbrev pub build_request : Bool → Str → BodyStream
build_request final [] = end (some 0)
build_request final s = part (some 0) (encode s) (hint final) (end (some 0))

abbrev defaults : Link SendToAppCollector DeterministicReceiveFromApp
defaults = record { send_to = record { messages = [] }; receive_from = default_receive }

abbrev TestRequestMessagesSentToAppOk : Type 0
TestRequestMessagesSentToAppOk =
    (order : Order) (final : Bool)
    → let out = handle order (http_handler (from_secs 10)) defaults (build_request final []) in
      IsOk out.1 × (length out.0.messages ≡ 2)

test_request_messages_sent_to_app_ok : TestRequestMessagesSentToAppOk
unfolding handle status body
test_request_messages_sent_to_app_ok request_first final = (tt, refl)
test_request_messages_sent_to_app_ok (response_first k) final = (tt, refl)

-- What the test reads of the messages; `none` is its panic.
abbrev bodies : List AsgiReceiveEvent → Option Str
bodies [] = some []
bodies (http_request msg ∷ rest) = elim (bodies rest) [
  | some body ↦ some (from_utf8_lossy msg.body ++ body)
  | none ↦ none
]
bodies (http_disconnect _ ∷ rest) = bodies rest
bodies (_ ∷ rest) = none

abbrev TestSentBodyIsOk : Type 0
TestSentBodyIsOk =
    (order : Order) (final : Bool)
    → let out =
        handle order (http_handler (from_secs 10)) defaults
          (build_request final (str "hello world")) in
      IsOk out.1 × (bodies out.0.messages ≡ some (str "hello world"))

test_sent_body_is_ok : TestSentBodyIsOk
unfolding handle status body from_utf8_lossy encode
test_sent_body_is_ok request_first true = (tt, refl)
test_sent_body_is_ok request_first false = (tt, refl)
test_sent_body_is_ok (response_first k) true = (tt, refl)
test_sent_body_is_ok (response_first k) false = (tt, refl)

abbrev TestSendFails : Type 0
TestSendFails =
    (order : Order) (final : Bool)
    → IsErrAnd (λ e. to_string e ≡ str "SendToAppFail always fails")
        (handle order (http_handler (from_secs 10))
          (record { send_to = fails; receive_from = default_receive })
          (build_request final (str "hello world"))).1

test_send_fails : TestSendFails
unfolding handle status body encode to_string
test_send_fails request_first final = refl
test_send_fails (response_first k) final = refl

abbrev TestLastMessageIsDisconnect : Type 0
TestLastMessageIsDisconnect =
    (order : Order) (final : Bool)
    → let out =
        handle order (http_handler (from_secs 10)) defaults
          (build_request final (str "hello world")) in
      IsOk out.1 × (get_elem? out.0.messages (length out.0.messages - 1) ≡ some new_http_disconnect)

test_last_message_is_disconnect : TestLastMessageIsDisconnect
unfolding handle status body encode
test_last_message_is_disconnect request_first true = (tt, refl)
test_last_message_is_disconnect request_first false = (tt, refl)
test_last_message_is_disconnect (response_first k) true = (tt, refl)
test_last_message_is_disconnect (response_first k) false = (tt, refl)
