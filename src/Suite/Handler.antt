-- ===== src/Suite/Handler.antt =====
-- The tests `test_handler` of aras/src/protocols/websocket.rs.
use trap.Shared.{
  ◌++◌, ◌+◌, ◌≡◌, refl, true, ◌&&◌, Option, none, some, List, [], ◌∷◌, length, map, leb, list_eq,
  Result, ok, if◌then◌else◌,
}
use trap.Text.Utf8.{Bytes, str, encode, from_utf8}
use trap.Asgi.Events.{Headers}
use trap.Asgi.Spec.{
  AsgiSendEvent, new_websocket_send, new_websocket_receive, new_websocket_accept,
  new_websocket_close,
}
use trap.Errors.{ArasResult, WebSocketError}
use trap.Communication.Interface.{CommunicationResult}
use trap.Http.Library.{HttpCrate, ResponseHead, Response, status_code, append_fields, header, body}
use trap.Websocket.Library.{text}
use trap.Websocket.Builder.{build}
use trap.Websocket.Machine.{State, starting, closed, Choice, frame_ready, app_ready, run_loop}
use trap.Websocket.Handshake.{
  handle, accept_connection, connect_response, connect_of_event, connect_of_accept,
  upgrade_accepted, merge_responses,
}
use trap.Mocks.{send_to_app_collector, deterministic_receive, from_secs}
use trap.Mocks.Stream.{is_close_frame, close_code, message}
use trap.Examples.Fixtures.{values-at_end, debug_opcode, websocket_crate, Script, script, link_of}
use trap.Suite.{IsOkAnd, IsSomeAnd, IsWebsocketDisconnect, debug_derived, get_elem?}
use trap.Suite.Clients.{Ctx, context, After, IsCloseAt}

-- The run of the loop over the branches that are ready in turn.
abbrev run_ws_until_complete : List Choice → Ctx → Option (State × Ctx)
run_ws_until_complete ready ctx = run_loop ready starting ctx

abbrev TestAsgiMessagesAreSendToClient : Type 0
TestAsgiMessagesAreSendToClient =
    After closed
      (λ frames send_to_app.
        (length frames ≡ 3)
        × IsSomeAnd (λ f. (f.opcode ≡ text) × (message f ≡ some (str "hello client")))
            (get_elem? frames 0)
        × IsSomeAnd (λ f. (f.opcode ≡ text) × (message f ≡ some (str "im the server")))
            (get_elem? frames 1)
        × IsCloseAt frames 2 1000 (str "goodbye")
        × (length send_to_app ≡ 1)
        × IsSomeAnd IsWebsocketDisconnect (get_elem? send_to_app 0))
      (run_ws_until_complete (app_ready ∷ app_ready ∷ app_ready ∷ []) (
        context 1024
          (ok (new_websocket_send none (some (str "hello client")))
            ∷ ok (new_websocket_send none (some (str "im the server")))
            ∷ ok (new_websocket_close 1000 (str "goodbye"))
            ∷ [])
          none))

test_asgi_messages_are_send_to_client : TestAsgiMessagesAreSendToClient
unfolding run_loop build is_close_frame close_code message encode from_utf8
test_asgi_messages_are_send_to_client =
    (refl, (refl, (refl, refl), (refl, refl), (refl, refl, refl), refl, tt))

abbrev TestFramesSplitWhenExceedingMaxMessageSize : Type 0
TestFramesSplitWhenExceedingMaxMessageSize =
    After closed
      (λ frames send_to_app.
        (length frames ≡ 5)
        × IsSomeAnd (λ f. (f.opcode ≡ text) × (message f ≡ some (str "I would ve")))
            (get_elem? frames 0)
        × IsSomeAnd (λ f. message f ≡ some (str "plit up")) (get_elem? frames 3)
        × IsSomeAnd (λ f. is_close_frame f ≡ true) (get_elem? frames 4))
      (run_ws_until_complete (app_ready ∷ app_ready ∷ []) (
        context 10
          (ok (new_websocket_send none (some (str "I would very much like to be split up")))
            ∷ ok (new_websocket_close 1000 (str "goodbye"))
            ∷ [])
          none))

test_frames_split_when_exceeding_max_message_size : TestFramesSplitWhenExceedingMaxMessageSize
unfolding run_loop build is_close_frame message encode from_utf8
test_frames_split_when_exceeding_max_message_size = (refl, (refl, (refl, refl), refl, refl))

abbrev TestClientMessagesAreSendToAsgiApp : Type 0
TestClientMessagesAreSendToAsgiApp =
    After closed
      (λ frames send_to_app.
        (length send_to_app ≡ 3)
        × (get_elem? send_to_app 0 ≡ some (new_websocket_receive none (some (str "hello server"))))
        × (get_elem? send_to_app 1
            ≡ some (new_websocket_receive none (some (str "im the client")))))
      (run_ws_until_complete (frame_ready ∷ frame_ready ∷ frame_ready ∷ [])
        (context 1024 [] (some (str "hello server" ∷ str "im the client" ∷ []))))

test_client_messages_are_send_to_asgi_app : TestClientMessagesAreSendToAsgiApp
unfolding run_loop encode from_utf8
test_client_messages_are_send_to_asgi_app = (refl, (refl, refl, refl))

-- The crate puts the name of a field in lower case, and looks it up so.
abbrev lower : Bytes → Bytes
lower name = map (λ c. if leb 65 c && leb c 90 then c + 32 else c) name

instance abbrev http_lower : HttpCrate
http_lower = record {
  check_status = λ s. ok s;
  check_header = λ k v. ok (lower k, v);
  append = λ hs kv. ok (hs ++ kv ∷ []);
  values-append = λ hs hs' kv name e. values-at_end hs hs' kv name e;
}

abbrev get : Bytes → Headers → Option Bytes
get name [] = none
get name ((k, v) ∷ rest) = if list_eq (lower name) k then some v else get name rest

-- The head that `upgrade::upgrade` answers with, for the key of `build_websocket_request`.
abbrev upgraded : Bytes → ResponseHead
upgraded key = record {
  status = 101;
  headers =
      (str "connection", str "upgrade")
      ∷ (str "upgrade", str "websocket")
      ∷ (str "sec-websocket-accept", key)
      ∷ [];
}

-- The response of a handler whose application gives the events.
abbrev answer :
    List (CommunicationResult AsgiSendEvent)
    → Bytes
    → Result Script WebSocketError
    → ArasResult (Response Bytes)
answer events key connection =
    (handle (record { timeout = from_secs 5; max_frame_size = 1000; client = str "client" })
      (link_of events) (ok (upgraded key, connection))).response

abbrev TestAcceptWebsocketConnection : Type 0
TestAcceptWebsocketConnection =
    (key : Bytes) (connection : Result Script WebSocketError)
    → IsOkAnd
        (λ response.
          (response.head.status ≡ 101)
          × (get (str "sec-websocket-accept") response.head.headers ≡ some key)
          × (get (str "connection") response.head.headers ≡ some (str "upgrade"))
          × (get (str "upgrade") response.head.headers ≡ some (str "websocket")))
        (answer (ok (new_websocket_accept none []) ∷ []) key connection)

test_accept_websocket_connection : TestAcceptWebsocketConnection
unfolding handle accept_connection connect_response connect_of_event connect_of_accept
    upgrade_accepted merge_responses status_code append_fields body
test_accept_websocket_connection key connection = (refl, refl, refl, refl)

abbrev TestAcceptWebsocketConnectionAdditionalHeaders : Type 0
TestAcceptWebsocketConnectionAdditionalHeaders =
    (key : Bytes) (connection : Result Script WebSocketError)
    → IsOkAnd
        (λ response.
          (get (str "X-Custom-Header") response.head.headers ≡ some (str "CustomValue"))
          × (length response.head.headers ≡ 4))
        (answer
          (ok (new_websocket_accept none ((str "X-Custom-Header", str "CustomValue") ∷ [])) ∷ [])
          key connection)

test_accept_websocket_connection_additional_headers : TestAcceptWebsocketConnectionAdditionalHeaders
unfolding handle accept_connection connect_response connect_of_event connect_of_accept
    upgrade_accepted merge_responses status_code append_fields header body
test_accept_websocket_connection_additional_headers key connection = (refl, refl)

abbrev TestDuplicateHeaders : Type 0
TestDuplicateHeaders =
    (key : Bytes) (connection : Result Script WebSocketError)
    → IsOkAnd (λ response. length response.head.headers ≡ 4)
        (answer
          (ok (new_websocket_accept none ((str "sec-websocket-accept", str "CustomValue") ∷ []))
            ∷ [])
          key connection)

test_duplicate_headers : TestDuplicateHeaders
unfolding handle accept_connection connect_response connect_of_event connect_of_accept
    upgrade_accepted merge_responses status_code append_fields header body
test_duplicate_headers key connection = refl
