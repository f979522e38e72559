-- ===== src/Examples/Connections.antt =====
-- WebSocket connections.
use trap.Shared.{All, inl, ◌≡◌, refl, true, Option, none, some, List, [], ◌∷◌, ◌++◌, ok, arith}
use trap.Text.Utf8.{Bytes, str, encode, IsScalar, from_utf8}
use trap.Asgi.Events.{WebsocketSendEvent}
use trap.Asgi.Spec.{new_websocket_receive, new_websocket_accept, new_websocket_close}
use trap.Communication.Interface.{Link}
use trap.Http.Library.{ResponseHead, values}
use trap.Asgi.Events.{Headers}
use trap.Websocket.Library.{text, Frame, new_frame, owned}
use trap.Websocket.Builder.{FrameBuilder, split_loop, split_bytes, build}
use trap.Websocket.Splitting.{split_loop_zero}
use trap.Websocket.Blocks.{whole, first, split_bytes_iff}
use trap.Websocket.Assembly.{assemble, IsMessage, message_of, build_total}
use trap.Websocket.Machine
use trap.Websocket.Event.{frame_received, asgi_event_received, event_of_frame}
use trap.Websocket.Closing.{on_event-close_frame, build-event_of_frame}
use trap.Websocket.Machine.{
  running, on_event, State, closed, starting, Context, frame_ready, app_ready, run_loop, next_event,
}
use trap.Websocket.Trace.{Told}
use trap.Websocket.Codes.{IsClosedWith, on_event-closing}
use trap.Websocket.Ending.{run_loop-closing}
use trap.Websocket.Loop.{run_loop-Told}
use trap.Websocket.Handshake.{WebsocketHandler, handle}
use trap.Websocket.Opening.{after_connect, handle_accepted}
use trap.Mocks.{
  SendToAppCollector, DeterministicReceiveFromApp, send_to_app_collector, deterministic_receive,
}
use trap.Examples.Fixtures.{
  debug_send, debug_opcode, http_crate, websocket_crate, Script, script, link_of,
}

abbrev small : FrameBuilder
small = record { max_frame_size = 2 }

split_loop_zero_example : split_loop 1000 0 (str "hello") 0 ≡ none
split_loop_zero_example = split_loop_zero 1000 (str "hello") 0 (omega arith) (omega arith)

split_bytes_iff_example :
    split_bytes small (str "hello") ≡ some (str "he" ∷ str "ll" ∷ str "o" ∷ [])
split_bytes_iff_example =
    (split_bytes_iff small (str "hello") (str "he" ∷ str "ll" ∷ str "o" ∷ []) (omega arith)
        (omega arith)).1
      (first _ _ (str "llo") _ refl refl (omega arith)
        (first _ _ (str "o") _ refl refl (omega arith) (whole _ (omega arith))))

abbrev greeting : WebsocketSendEvent
greeting = record { bytes = none; text = some (str "hello") }

build_total_example :
    (frames : List Frame) × (build small greeting ≡ some frames)
    × IsMessage 2 (message_of greeting) frames
unfolding encode
build_total_example = build_total small greeting (omega arith) (omega arith)

abbrev Ctx : Type 0
Ctx = Context SendToAppCollector DeterministicReceiveFromApp Script

-- A message from the peer, then the application closes.
abbrev before : Ctx
before = record {
  frame_builder = small;
  send_to_app = record { messages = [] };
  receive_from_app = record {
    messages = ok (new_websocket_close 1001 (str "bye")) ∷ [];
    index = 0;
  };
  websocket = record { sent = []; incoming = new_frame true text (owned (str "hi")) ∷ [] };
}

abbrev run : Option (State × Ctx)
run = run_loop (frame_ready ∷ app_ready ∷ []) starting before

abbrev or_before : Option (State × Ctx) → State × Ctx
or_before none = (starting, before)
or_before (some r) = r

run_done : run ≡ some (closed, (or_before run).1)
unfolding run_loop
run_done = refl

run_loop-Told_example : Told [] [] closed (or_before run).1
run_loop-Told_example =
    run_loop-Told (frame_ready ∷ app_ready ∷ []) before (or_before run).1 closed run_done

abbrev ws_handler : WebsocketHandler
ws_handler = record { timeout = 10; max_frame_size = 2; client = str "peer" }

abbrev accepting : Link SendToAppCollector DeterministicReceiveFromApp
accepting = link_of (ok (new_websocket_accept (some (str "chat")) []) ∷ [])

abbrev upgrade_head : ResponseHead
upgrade_head = record { status = 101; headers = (str "upgrade", str "websocket") ∷ [] }

abbrev idle : Script
idle = record { sent = []; incoming = [] }

abbrev offered : Headers
offered = (str "sec-websocket-protocol", str "chat") ∷ []

abbrev merged : Headers
merged = (str "upgrade", str "websocket") ∷ offered

handle_accepted_example :
    (handle ws_handler accepting (ok (upgrade_head, ok idle)) ≡ record {
      response = ok (record { head = record { status = 101; headers = merged }; body = [] });
      spawned = some (after_connect accepting, ok idle);
    })
    × ((name : Bytes)
        → values name merged ≡ values name upgrade_head.headers ++ values name offered)
unfolding encode
handle_accepted_example =
    handle_accepted ws_handler accepting (some (str "chat")) [] offered offered upgrade_head.headers
      merged upgrade_head (ok idle) (refl, (0, omega arith, refl)) (refl, tt) (_, refl, refl)
      (_, refl, refl) (_, refl, refl)

goodbye : All IsScalar (str "bye")
goodbye = (inl (omega arith), (inl (omega arith), (inl (omega arith), tt)))

on_event-close_frame_example : IsClosedWith 1001 (str "bye") before (
    on_event running
      (event_of_frame (websocket_crate.close_frame 1001 (encode (str "bye"))))
      before)
on_event-close_frame_example =
    on_event-close_frame running before 1001 (str "bye") (λ e. cc e) goodbye

build-event_of_frame_example :
    (frames : List Frame) × (build small (record { bytes = none; text = some (str "bye") })
      ≡ some frames)
    × (assemble frames ≡ some (text, encode (str "bye")))
    × (event_of_frame (new_frame true text (owned (encode (str "bye"))))
        ≡ frame_received (new_websocket_receive none (some (str "bye"))))
unfolding encode
build-event_of_frame_example =
    build-event_of_frame small (str "bye") (omega arith) goodbye (omega arith)

-- The application closes a running connection.
on_event-closing_example :
    IsClosedWith 1001
      (str "bye")
      before
      (on_event running (asgi_event_received (new_websocket_close 1001 (str "bye"))) before)
on_event-closing_example =
    on_event-closing running (asgi_event_received (new_websocket_close 1001 (str "bye"))) before
      1001 (str "bye") (λ e. cc e) refl goodbye

-- A message from the peer, the application's close, and a branch that would be ready after it.
abbrev heard : Ctx
heard = record before {
  send_to_app = record { messages = new_websocket_receive none (some (str "hi")) ∷ [] };
  websocket = record { sent = []; incoming = [] };
}

abbrev parting : Ctx
parting = record heard { receive_from_app = record before.receive_from_app { index = 1 } }

heard_first : run_loop (frame_ready ∷ []) starting before ≡ some (running, heard)
unfolding run_loop from_utf8
heard_first = refl

run_loop-closing_example :
    run_loop (frame_ready ∷ app_ready ∷ frame_ready ∷ []) starting before
    ≡ some (Machine.close 1001 (str "bye") parting)
unfolding next_event
run_loop-closing_example =
    run_loop-closing (frame_ready ∷ []) (frame_ready ∷ []) app_ready before heard parting running
      (asgi_event_received (new_websocket_close 1001 (str "bye"))) 1001 (str "bye") heard_first
      (λ e. cc e) refl refl
