-- ===== src/Suite/States.antt =====
-- The tests `test_state_transitions` of aras/src/protocols/websocket.rs.
use trap.Shared.{◌≡◌, refl, true, none, some, [], ◌++◌, length}
use trap.Text.Utf8.{Str, str, encode, from_utf8}
use trap.Asgi.Spec.{
  new_websocket_send, new_websocket_receive, new_websocket_disconnect, new_websocket_close,
}
use trap.Errors.{custom}
use trap.Websocket.Library.{text}
use trap.Websocket.Event.{frame_received, asgi_event_received, connection_ended, error_occurred}
use trap.Websocket.Machine.{starting, running, closed, on_event}
use trap.Websocket.Builder.{build}
use trap.Mocks.{send_to_app_collector, deterministic_receive}
use trap.Mocks.Stream.{is_close_frame, close_code, message}
use trap.Examples.Fixtures.{debug_opcode, websocket_crate, script}
use trap.Suite.{debug_derived, get_elem?, IsSomeAnd, IsWebsocketDisconnect}
use trap.Suite.Clients.{context, After, IsCloseAt}

abbrev TestRunningAsgiSendReceived : Type 0
TestRunningAsgiSendReceived =
    After running
      (λ frames send_to_app.
        (length frames ≡ 1)
        × IsSomeAnd (λ f. (f.opcode ≡ text) × (message f ≡ some (str "hello")))
            (get_elem? frames 0))
      (on_event running (asgi_event_received (new_websocket_send none (some (str "hello"))))
        (context 1024 [] none))

test_running_asgi_send_received : TestRunningAsgiSendReceived
unfolding on_event build message encode from_utf8
test_running_asgi_send_received = (refl, (refl, (refl, refl)))

abbrev TestRunningFrameDataReceived : Type 0
TestRunningFrameDataReceived =
    After running
      (λ frames send_to_app.
        (length send_to_app ≡ 1)
        × (get_elem? send_to_app 0 ≡ some (new_websocket_receive none (some (str "frame")))))
      (on_event running (frame_received (new_websocket_receive none (some (str "frame"))))
        (context 1024 [] none))

test_running_frame_data_received : TestRunningFrameDataReceived
unfolding on_event
test_running_frame_data_received = (refl, (refl, refl))

abbrev Contains : Str → Str → Type 0
Contains said part = (before : Str) × (after : Str) × (said ≡ before ++ part ++ after)

abbrev TestRunningErrorOccurred : Type 0
TestRunningErrorOccurred =
    After closed
      (λ frames send_to_app.
        (length frames ≡ 1)
        × IsSomeAnd
            (λ f.
              (is_close_frame f ≡ true)
              × (close_code f ≡ some 1011)
              × IsSomeAnd (λ m. Contains m (str "Internal server error")) (message f))
            (get_elem? frames 0)
        × (length send_to_app ≡ 1)
        × IsSomeAnd IsWebsocketDisconnect (get_elem? send_to_app 0))
      (on_event running (error_occurred (custom (str "whoops"))) (context 1024 [] none))

test_running_error_occurred : TestRunningErrorOccurred
unfolding on_event is_close_frame close_code message encode from_utf8
test_running_error_occurred = (refl, (refl, (refl, refl, ([], [], refl)), refl, tt))

abbrev TestRunningCloseFrameReceived : Type 0
TestRunningCloseFrameReceived =
    After closed
      (λ frames send_to_app.
        (length frames ≡ 1)
        × IsCloseAt frames 0 1000 (str "goodbye")
        × (length send_to_app ≡ 1)
        × IsSomeAnd IsWebsocketDisconnect (get_elem? send_to_app 0))
      (on_event running (frame_received (new_websocket_disconnect 1000 (str "goodbye")))
        (context 1024 [] none))

test_running_close_frame_received : TestRunningCloseFrameReceived
unfolding on_event is_close_frame close_code message encode from_utf8
test_running_close_frame_received = (refl, (refl, (refl, refl, refl), refl, tt))

abbrev TestRunningCloseAsgiReceived : Type 0
TestRunningCloseAsgiReceived =
    After closed
      (λ frames send_to_app.
        (length frames ≡ 1)
        × IsCloseAt frames 0 1000 (str "goodbye")
        × (length send_to_app ≡ 1)
        × IsSomeAnd IsWebsocketDisconnect (get_elem? send_to_app 0))
      (on_event running (asgi_event_received (new_websocket_close 1000 (str "goodbye")))
        (context 1024 [] none))

test_running_close_asgi_received : TestRunningCloseAsgiReceived
unfolding on_event is_close_frame close_code message encode from_utf8
test_running_close_asgi_received = (refl, (refl, (refl, refl, refl), refl, tt))

abbrev TestClosedAnyEvent : Type 0
TestClosedAnyEvent =
    After closed (λ frames send_to_app. (frames ≡ []) × (send_to_app ≡ []))
      (on_event closed (asgi_event_received (new_websocket_close 1000 (str "goodbye")))
        (context 1024 [] none))

test_closed_any_event : TestClosedAnyEvent
unfolding on_event
test_closed_any_event = (refl, (refl, refl))

abbrev TestRunningConnectionClosed : Type 0
TestRunningConnectionClosed =
    After closed
      (λ frames send_to_app.
        (length frames ≡ 1)
        × IsCloseAt frames 0 1000 (str "Connection closed")
        × IsSomeAnd IsWebsocketDisconnect (get_elem? send_to_app 0))
      (on_event running connection_ended (context 1024 [] none))

test_running_connection_closed : TestRunningConnectionClosed
unfolding on_event is_close_frame close_code message encode from_utf8
test_running_connection_closed = (refl, (refl, (refl, refl, refl), tt))

abbrev TestStartingConnectionClosed : Type 0
TestStartingConnectionClosed =
    After closed
      (λ frames send_to_app.
        (length frames ≡ 1)
        × IsCloseAt frames 0 1000 (str "Connection closed")
        × IsSomeAnd IsWebsocketDisconnect (get_elem? send_to_app 0))
      (on_event starting connection_ended (context 1024 [] none))

test_starting_connection_closed : TestStartingConnectionClosed
unfolding on_event is_close_frame close_code message encode from_utf8
test_starting_connection_closed = (refl, (refl, (refl, refl, refl), tt))
