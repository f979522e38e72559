-- ===== src/Websocket/Event.antt =====
-- `Event` and its `From` implementations: what the loop of a connection reacts to.
use trap.Shared.{ℕ, ◌+◌, ◌*◌, Option, none, some, [], ◌∷◌, ◌++◌, Result, ok, err}
use trap.Text.Utf8.{Str, Bytes, str, from_utf8, from_utf8_lossy}
use trap.Asgi.Events.{unwrap_or}
use trap.Asgi.Spec.{
  AsgiSendEvent, AsgiReceiveEvent, websocket_close, websocket_send, new_websocket_receive,
  new_websocket_disconnect,
}
use trap.Errors.{
  ArasError, custom, websocket_error, unexpected_asgi_message, WebSocketError, WebSocketErrorKind,
  connection_closed, Debug,
}
use trap.Communication.Interface.{completed, CommunicationResult, application_result_into}
use trap.Websocket.Library.{
  OpCode, text, binary, close, Payload, owned, shared, borrowed, borrowed_mut, Frame,
  WebsocketCrate,
}

pub data Event : Type 0 where
  frame_received : AsgiReceiveEvent → Event
  asgi_event_received : AsgiSendEvent → Event
  connection_ended : Event
  error_occurred : ArasError → Event

-- `match value.payload`
unfoldable pub payload_of : Payload → Option Bytes
payload_of (shared b) = some b
payload_of (owned b) = some b
payload_of (borrowed b) = some b
payload_of (borrowed_mut b) = some b

-- The code and the reason of a close frame: two bytes, big-endian, and a text.
unfoldable pub close_reason : ⦃ws : WebsocketCrate⦄ → Bytes → ℕ × Str
close_reason ⦃ws⦄ [] = (ws.normal, [])
close_reason ⦃ws⦄ (b ∷ []) = (ws.normal, [])
close_reason (hi ∷ lo ∷ rest) = (hi * 256 + lo, from_utf8_lossy rest)

module _ ⦃ws : WebsocketCrate⦄ ⦃opcodes : Debug OpCode⦄ where
  -- `match value.opcode`
  unfoldable pub event_of_message : OpCode → Option Bytes → Event
  unfolding close_reason
  event_of_message text bytes =
      frame_received
        (new_websocket_receive none (some (unwrap_or [] (from_utf8 (unwrap_or [] bytes)))))
  event_of_message binary bytes = frame_received (new_websocket_receive bytes none)
  event_of_message close bytes =
      let (code, reason) = close_reason (unwrap_or [] bytes) in
      frame_received (new_websocket_disconnect code reason)
  event_of_message op bytes =
      error_occurred (custom (str "unexpected opcode: " ++ opcodes.debug op))

  -- `impl From<Frame<'_>> for Event`
  unfoldable pub event_of_frame : Frame → Event
  unfolding event_of_message payload_of
  event_of_frame f = event_of_message f.opcode (payload_of f.payload)

  unfoldable pub error_event : WebSocketErrorKind → WebSocketError → Event
  error_event connection_closed e = connection_ended
  error_event _ e = error_occurred (websocket_error e)

  -- `impl From<Result<Frame<'_>, WebSocketError>> for Event`
  unfoldable pub event_of_read : Result Frame WebSocketError → Event
  unfolding event_of_frame error_event
  event_of_read (ok f) = event_of_frame f
  event_of_read (err e) = error_event e.kind e

module _ ⦃debug : Debug AsgiSendEvent⦄ where
  -- `impl From<ASGISendEvent> for Event`
  unfoldable pub event_of_asgi : AsgiSendEvent → Event
  event_of_asgi (websocket_send msg) = asgi_event_received (websocket_send msg)
  event_of_asgi (websocket_close msg) = asgi_event_received (websocket_close msg)
  event_of_asgi event = error_occurred (unexpected_asgi_message (debug.debug event))

  -- `impl From<CommunicationResult<ASGISendEvent>> for Event`
  unfoldable pub event_of_received : CommunicationResult AsgiSendEvent → Event
  unfolding event_of_asgi application_result_into
  event_of_received (ok msg) = event_of_asgi msg
  event_of_received (err completed) = connection_ended
  event_of_received (err e) = error_occurred (application_result_into e)
