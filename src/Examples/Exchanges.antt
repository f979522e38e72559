-- ===== src/Examples/Exchanges.antt =====
-- HTTP exchanges, and the responses to errors.
use trap.Shared.{◌≡◌, refl, ◌⊎◌, true, false, some, [], ◌∷◌, map, Result, ok, err, is_ok, arith}
use trap.Text.Utf8.{Str, Bytes, str}
use trap.Asgi.Spec.{new_http_response_start, new_http_response_body, new_http_disconnect}
use trap.Communication.Interface.{completed, application_result_into, Link, delivered_after}
use trap.Http.Library.{Response, BodyStream, end, part}
use trap.Http.Request.{read_body}
use trap.Http.Response.{ResponseBody, response_body, make_response, poll_items}
use trap.Http.Library.{values}
use trap.Asgi.Events.{Headers}
use trap.Http.Handler.{HttpHandler, response_first, handle}
use trap.Http.Framing.{Sends}
use trap.Http.Handling.{read_body_total, handle-Sends}
use trap.Http.Breaking
use trap.Http.Breaking.{exits, poll_items-Breaks}
use trap.Errors.{application_not_running}
use trap.Http.Relay.{last, next, finished, poll_items-Streams, make_response_accepted}
use trap.Layers.ErrorHandler.{BoxError, overloaded, BoxBody}
use trap.Layers.ErrorHandler
use trap.Layers.Responses.{IsPassedOn, IsAnswerTo, call_total}
use trap.Mocks.{
  SendToAppCollector, DeterministicReceiveFromApp, send_to_app_collector, deterministic_receive,
  default_receive,
}
use trap.Examples.Fixtures.{debug_send, http_crate, link_of}

-- Two parts, the second with a size hint of nothing left.
abbrev upload : BodyStream
upload = part (some 1) (str "ab") (some 1) (part (some 2) (str "c") (some 0) (end (some 0)))

abbrev app : SendToAppCollector
app = record { messages = [] }

read_body_total_example : (read_body 10 upload app).1 ≡ ok tt
read_body_total_example =
    read_body_total 10 upload app (λ s event. refl) (omega arith, (omega arith, omega arith))

abbrev exchange : Link SendToAppCollector DeterministicReceiveFromApp
exchange = link_of (ok (new_http_response_start 200 []) ∷ ok (new_http_response_body [] false) ∷ [])

abbrev http_handler : HttpHandler
http_handler = record { timeout = 10 }

handle-Sends_example :
    (s : SendToAppCollector) × Sends upload exchange.send_to s
      (is_ok (handle (response_first 1) http_handler exchange upload).1)
    × ((handle (response_first 1) http_handler exchange upload).0.messages
        ≡ delivered_after s.messages new_http_disconnect (ok tt))
handle-Sends_example =
    handle-Sends (response_first 1) http_handler exchange upload (omega arith, (omega arith, tt))

abbrev answers : DeterministicReceiveFromApp
answers = record {
  messages =
      ok (new_http_response_body (str "x") true) ∷ ok (new_http_response_body (str "y") false) ∷ [];
  index = 0;
}

abbrev answered : DeterministicReceiveFromApp
answered = record answers { index = 2 }

poll_items-Streams_example :
    poll_items 3 (response_body 10 answers)
    ≡ (finished 10 answered, map ok (str "x" ∷ str "y" ∷ []))
poll_items-Streams_example =
    poll_items-Streams 10 3 answers answered (str "x" ∷ str "y" ∷ [])
      (next 0 (omega arith) refl (last 0 (omega arith) refl)) (omega arith)

-- An application that sets two cookies.
abbrev fields : Headers
fields = (str "set-cookie", str "a") ∷ (str "set-cookie", str "b") ∷ []

abbrev cookies : DeterministicReceiveFromApp
cookies = record { messages = ok (new_http_response_start 200 fields) ∷ []; index = 0 }

make_response_accepted_example :
    (make_response 10 cookies
      ≡ ok (record {
        head = record { status = 200; headers = fields };
        body = response_body 10 (record cookies { index = 1 });
      }))
    × ((name : Bytes) → values name fields ≡ values name fields)
make_response_accepted_example =
    make_response_accepted 10 0 cookies (record cookies { index = 1 }) 200 200 fields fields fields
      (omega arith) refl refl (refl, (refl, tt)) (_, refl, (_, refl, refl))

abbrev overload : Str → Result (Response Bytes) BoxError
overload q = err overloaded

call_total_example :
    (r : Response (BoxBody Bytes)) × (ErrorHandler.call overload [] ≡ ok r)
    × (((response : Response Bytes) × (overload [] ≡ ok response) × IsPassedOn response r)
        ⊎ ((e : BoxError) × (overload [] ≡ err e) × IsAnswerTo e r))
call_total_example = call_total overload []

abbrev default_response : Response (ResponseBody DeterministicReceiveFromApp)
default_response = record {
  head = record { status = 200; headers = [] };
  body = response_body 10 (record default_receive { index = 1 });
}

-- An application that sends a part and exits.
abbrev broken_off : DeterministicReceiveFromApp
broken_off = record {
  messages = ok (new_http_response_body (str "x") true) ∷ err completed ∷ [];
  index = 0;
}

poll_items-Breaks_example :
    (poll_items 2 (response_body 10 broken_off)).1 ≡ ok (str "x") ∷ err application_not_running ∷ []
unfolding application_result_into
poll_items-Breaks_example =
    poll_items-Breaks 10 broken_off (str "x" ∷ []) application_not_running
      (Breaking.next 0 (omega arith) refl (exits completed (0, omega arith, refl)))
