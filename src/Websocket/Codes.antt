-- ===== src/Websocket/Codes.antt =====
-- websocket.rs: with which code and which reason a connection is closed, as the tests read a frame.
use mathlib.Core.Option
use trap.Shared.{
  ℕ, suc, ◌+◌, ◌*◌, ◌/◌, ◌%◌, ◌<◌, ◌≡◌, refl, ap, ◌∙◌, ◌≢◌, true, Option, none, some, [], ◌∷◌,
  length, length-append, lt→ltb, le→leb, All, arith,
}
use trap.Text.Utf8.{Str, Bytes, str, encode_char, encode, IsScalar, from_utf8}
use trap.Text.RoundTrip.{from_utf8-encode}
use trap.Asgi.Spec.{
  AsgiSendEvent, AsgiReceiveEvent, websocket_send, websocket_close, websocket_disconnect,
  new_websocket_disconnect,
}
use trap.Errors.{
  ArasError, websocket_error, WebSocketErrorKind, invalid_close_code, invalid_close_frame,
  invalid_utf8, connection_closed, other, Debug,
}
use trap.Communication.Interface.{SendToAsgiApp, delivered_after}
use trap.Websocket.Library.{
  OpCode, Frame, new_frame, owned, WebsocketCrate, FrameSocket, written_after,
}
use trap.Websocket.Library
use trap.Websocket.Event.{
  Event, frame_received, asgi_event_received, connection_ended, error_occurred,
}
use trap.Websocket.Machine.{
  State, starting, running, closed, Context, close, close_on, on_error, on_frame_received,
  on_asgi_received, on_event, react,
}
use trap.Mocks.Stream.{is_close_frame, close_code, message_bytes, message}

-- The codes of RFC 6455 and the reasons with which the server closes.
abbrev pub closing_kind : WebSocketErrorKind → ℕ × Str
closing_kind invalid_close_code = (1002, str "Protocol error")
closing_kind invalid_close_frame = (1002, str "Protocol error")
closing_kind invalid_utf8 = (1007, str "Invalid UTF-8 data received")
closing_kind _ = (1011, str "Internal server error")

abbrev pub closing_error : ArasError → ℕ × Str
closing_error (websocket_error e) = closing_kind e.kind
closing_error _ = (1011, str "Internal server error")

abbrev pub closing_frame : AsgiReceiveEvent → Option (ℕ × Str)
closing_frame (websocket_disconnect m) = some (m.code, m.reason)
closing_frame _ = none

abbrev pub closing_asgi : AsgiSendEvent → Option (ℕ × Str)
closing_asgi (websocket_send m) = none
closing_asgi (websocket_close m) = some (m.code, m.reason)
closing_asgi _ = some (1011, str "Internal server error")

-- Which events close a connection, whatever comes of sending, and with what.
abbrev pub closing : Event → Option (ℕ × Str)
closing (frame_received frame) = closing_frame frame
closing (asgi_event_received asgi) = closing_asgi asgi
closing connection_ended = some (1000, str "Connection closed")
closing (error_occurred error) = some (closing_error error)

-- What the tests read as the message of a close frame with a reason.
abbrev pub read_reason : Str → Option Str
read_reason [] = none
read_reason (c ∷ s) = some (c ∷ s)

encode_char_pos : (c : ℕ) → 0 < length (encode_char c)
unfolding encode_char
encode_char_pos c = ground arith

-- A close frame, and the two that the tests read of it.
abbrev closing_bytes : ℕ → ℕ → Bytes → Frame
closing_bytes hi lo rest = new_frame true Library.close (owned (hi ∷ lo ∷ rest))

message_long :
    (hi lo : ℕ) (rest : Bytes)
    → 0 < length rest
    → message (closing_bytes hi lo rest) ≡ from_utf8 rest
unfolding message message_bytes is_close_frame
message_long hi lo rest h = rw (lt→ltb 2 (suc (suc (length rest))) (omega arith), message) refl

message-reason :
    (hi lo : ℕ) (reason : Str)
    → All IsScalar reason
    → message (closing_bytes hi lo (encode reason)) ≡ read_reason reason
unfolding message message_bytes is_close_frame encode
message-reason hi lo [] h = refl
message-reason hi lo (c ∷ s) h =
    let k = encode_char_pos c in
    let n = length-append (encode_char c) (encode s) in
    message_long hi lo (encode (c ∷ s)) (omega arith) ∙ from_utf8-encode (c ∷ s) h

close_code_lem :
    (hi lo : ℕ) (rest : Bytes) → close_code (closing_bytes hi lo rest) ≡ some (hi * 256 + lo)
unfolding close_code is_close_frame
close_code_lem hi lo rest = rw (le→leb 2 (suc (suc (length rest))) (omega arith), close_code) refl

module _ ⦃ws : WebsocketCrate⦄ where
  -- The close frame of a code and a reason, as the tests read it.
  abbrev pub Reads : ℕ → Str → Frame → Type 0
  Reads code reason f =
      (is_close_frame f ≡ true) × (close_code f ≡ some code) × (message f ≡ read_reason reason)

  close_frame-Reads :
      (code : ℕ) (reason : Str)
      → All IsScalar reason
      → Reads code reason (ws.close_frame code (encode reason))
  unfolding is_close_frame
  close_frame-Reads code reason h =
      let k : code / 256 * 256 + code % 256 ≡ code = omega arith in
      rw (ws.close_frame_lem code (encode reason))
        (refl, close_code_lem _ _ (encode reason) ∙ ap some k, message-reason _ _ reason h)

module _ {S R W : Type 0} ⦃sender : SendToAsgiApp S⦄ ⦃socket : FrameSocket W⦄ ⦃ws : WebsocketCrate⦄
    ⦃debug : Debug AsgiSendEvent⦄ where
  -- Closing with a code and a reason.
  abbrev Closes : ℕ × Str → Context S R W → State × Context S R W → Type 0
  Closes c ctx out = out ≡ close c.0 c.1 ctx

  close_on-Closes :
      (k : WebSocketErrorKind) (ctx : Context S R W) → Closes (closing_kind k) ctx (close_on k ctx)
  unfolding close_on
  close_on-Closes invalid_close_code ctx = rw ws.protocol_lem refl
  close_on-Closes invalid_close_frame ctx = rw ws.protocol_lem refl
  close_on-Closes invalid_utf8 ctx = rw ws.invalid_lem refl
  close_on-Closes connection_closed ctx = rw ws.error_lem refl
  close_on-Closes other ctx = rw ws.error_lem refl

  on_error-Closes :
      (e : ArasError) (ctx : Context S R W) → Closes (closing_error e) ctx (on_error e ctx)
  unfolding on_error
  on_error-Closes (websocket_error e) ctx = close_on-Closes e.kind ctx
  on_error-Closes _ ctx = rw ws.error_lem refl

  given :
      (a c : ℕ × Str) (ctx : Context S R W)
      → some a ≡ some c
      → some (close a.0 a.1 ctx) ≡ some (close c.0 c.1 ctx)
  given a c ctx e = ap (λ z. some (close z.0 z.1 ctx)) (Option.some-injective _ _ e)

  react-Closes :
      (event : Event) (ctx : Context S R W) (c : ℕ × Str)
      → closing event ≡ some c
      → react event ctx ≡ some (close c.0 c.1 ctx)
  unfolding react on_frame_received on_asgi_received on_error
  react-Closes (frame_received (websocket_disconnect m)) ctx c e = given (m.code, m.reason) c ctx e
  react-Closes (frame_received _) ctx c e = absurd (cc e)
  react-Closes (asgi_event_received (websocket_send m)) ctx c e = absurd (cc e)
  react-Closes (asgi_event_received (websocket_close m)) ctx c e = given (m.code, m.reason) c ctx e
  react-Closes (asgi_event_received m) ctx c e =
      rw ws.error_lem (given (1011, str "Internal server error") c ctx e)
  react-Closes connection_ended ctx c e =
      rw ws.normal_lem (given (1000, str "Connection closed") c ctx e)
  react-Closes (error_occurred error) ctx c e =
      ap some (on_error-Closes error ctx) ∙ given (closing_error error) c ctx e

  pub on_event_closes :
      (st : State) (event : Event) (ctx : Context S R W) (code : ℕ) (reason : Str)
      → st ≢ closed
      → closing event ≡ some (code, reason)
      → on_event st event ctx ≡ some (close code reason ctx)
  unfolding on_event
  on_event_closes closed event ctx code reason n e = absurd (n refl)
  on_event_closes starting event ctx code reason n e = react-Closes event ctx (code, reason) e
  on_event_closes running event ctx code reason n e = react-Closes event ctx (code, reason) e

  -- The connection ends up closed. A close frame of which the tests read the code and the reason has been
  -- sent to the peer, unless writing it failed, and a disconnect with the two to the application, unless
  -- sending it failed, and nothing else.
  abbrev pub IsClosedWith : ℕ → Str → Context S R W → Option (State × Context S R W) → Type 0
  IsClosedWith code reason ctx out =
      let frame = ws.close_frame code (encode reason) in
      let event = new_websocket_disconnect code reason in
      (ctx' : Context S R W) × (out ≡ some (closed, ctx'))
      × Reads code reason frame
      × (socket.written ctx'.websocket
          ≡ written_after (socket.written ctx.websocket) frame
              (socket.write_frame ctx.websocket frame).1)
      × (sender.delivered ctx'.send_to_app
          ≡ delivered_after (sender.delivered ctx.send_to_app) event
              (sender.send ctx.send_to_app event).1)

  pub close-IsClosedWith :
      (code : ℕ) (reason : Str) (ctx : Context S R W) (out : Option (State × Context S R W))
      → All IsScalar reason
      → out ≡ some (close code reason ctx)
      → IsClosedWith code reason ctx out
  unfolding close
  close-IsClosedWith code reason ctx out h e = (
    (close code reason ctx).1,
    e,
    close_frame-Reads code reason h,
    socket.written-write_frame ctx.websocket (ws.close_frame code (encode reason)),
    sender.delivered-send ctx.send_to_app (new_websocket_disconnect code reason),
  )

  -- An event that closes a connection which is not yet closed closes it with the code of RFC 6455 and
  -- the reason, if that is a text, that the event calls for: a close frame from which the two are read is
  -- sent to the peer, unless writing it fails, and a disconnect with the two to the application, unless
  -- sending it fails, and nothing else.
  pub on_event-closing :
      (st : State) (event : Event) (ctx : Context S R W) (code : ℕ) (reason : Str)
      → st ≢ closed
      → closing event ≡ some (code, reason)
      → All IsScalar reason
      → IsClosedWith code reason ctx (on_event st event ctx)
  on_event-closing st event ctx code reason n e h =
      close-IsClosedWith code reason ctx (on_event st event ctx) h
        (on_event_closes st event ctx code reason n e)
