-- ===== src/Websocket/Passing.antt =====
-- websocket.rs: what passes through a connection for as long as it stays open.
use trap.Shared.{
  ℕ, ◌≡◌, refl, ap, ◌∙◌, Option, none, some, List, [], ◌∷◌, ◌++◌, All, append-nil, Result, ok, err,
}
use trap.Text.Utf8.{Bytes}
use trap.Asgi.Events.{WebsocketSendEvent}
use trap.Asgi.Spec.{AsgiSendEvent, AsgiReceiveEvent, websocket_send, websocket_close}
use trap.Errors.{WebSocketError, WebSocketErrorKind, connection_closed, Debug}
use trap.Communication.Interface.{
  SendToAsgiApp, ReceiveFromAsgiApp, ready, CommunicationResult, completed,
}
use trap.Websocket.Library.{
  IsPong, IsAnswerTo, OpCode, text, binary, close, Frame, WebsocketCrate, FrameSocket,
}
use trap.Websocket.Builder.{build}
use trap.Websocket.Event.{
  frame_received, asgi_event_received, event_of_message, payload_of, event_of_frame, error_event,
  event_of_read, event_of_asgi, event_of_received,
}
use trap.Websocket.Machine.{State, Context, Choice, frame_ready, app_ready, react}
use trap.Websocket.Loop.{answered_closes}
use trap.Websocket.Exchange.{
  without_pongs, without_pongs-append, without_pongs_none, react-closing, Adds, WhenOpen, FromPeer,
  FromApp, react-FromPeer, react-FromApp,
}

module _ ⦃ws : WebsocketCrate⦄ ⦃opcodes : Debug OpCode⦄ where
  event_of_message-FromPeer :
      (op : OpCode) (bytes : Option Bytes) → FromPeer (event_of_message op bytes)
  unfolding event_of_message
  event_of_message-FromPeer text bytes = tt
  event_of_message-FromPeer binary bytes = tt
  event_of_message-FromPeer close bytes = tt
  event_of_message-FromPeer _ bytes = tt

  error_event-FromPeer : (k : WebSocketErrorKind) (e : WebSocketError) → FromPeer (error_event k e)
  unfolding error_event
  error_event-FromPeer connection_closed e = tt
  error_event-FromPeer _ e = tt

  event_of_read-FromPeer : (r : Result Frame WebSocketError) → FromPeer (event_of_read r)
  unfolding event_of_read event_of_frame
  event_of_read-FromPeer (ok f) = event_of_message-FromPeer f.opcode (payload_of f.payload)
  event_of_read-FromPeer (err e) = error_event-FromPeer e.kind e

  error_event-frame :
      {B : Type 0} (k : WebSocketErrorKind) (e : WebSocketError) (m : AsgiReceiveEvent)
      → error_event k e ≡ frame_received m
      → B
  unfolding error_event
  error_event-frame connection_closed e m h = absurd (cc h)
  error_event-frame _ e m h = absurd (cc h)

  event_of_read-frame :
      (r : Result Frame WebSocketError) (m : AsgiReceiveEvent)
      → event_of_read r ≡ frame_received m
      → (f : Frame) × (r ≡ ok f) × (event_of_frame f ≡ frame_received m)
  unfolding event_of_read
  event_of_read-frame (ok f) m h = (f, refl, h)
  event_of_read-frame (err e) m h = error_event-frame e.kind e m h

module _ ⦃debug : Debug AsgiSendEvent⦄ where
  event_of_asgi-FromApp : (e : AsgiSendEvent) → FromApp (event_of_asgi e)
  unfolding event_of_asgi
  event_of_asgi-FromApp (websocket_send m) = tt
  event_of_asgi-FromApp _ = tt

  event_of_received-FromApp :
      (r : CommunicationResult AsgiSendEvent) → FromApp (event_of_received r)
  unfolding event_of_received
  event_of_received-FromApp (ok m) = event_of_asgi-FromApp m
  event_of_received-FromApp (err completed) = tt
  event_of_received-FromApp (err _) = tt

  event_of_asgi-asgi : (e m : AsgiSendEvent) → event_of_asgi e ≡ asgi_event_received m → e ≡ m
  unfolding event_of_asgi
  event_of_asgi-asgi (websocket_send e) m h = cc h
  event_of_asgi-asgi (websocket_close e) m h = cc h
  event_of_asgi-asgi _ m h = absurd (cc h)

  event_of_received-asgi :
      (r : CommunicationResult AsgiSendEvent) (m : AsgiSendEvent)
      → event_of_received r ≡ asgi_event_received m
      → r ≡ ok m
  unfolding event_of_received
  event_of_received-asgi (ok e) m h = ap ok (event_of_asgi-asgi e m h)
  event_of_received-asgi (err completed) m h = absurd (cc h)
  event_of_received-asgi (err _) m h = absurd (cc h)

module _ {S R W : Type 0} ⦃sender : SendToAsgiApp S⦄ ⦃receiver : ReceiveFromAsgiApp R⦄
    ⦃socket : FrameSocket W⦄ ⦃ws : WebsocketCrate⦄ ⦃debug : Debug AsgiSendEvent⦄
    ⦃opcodes : Debug OpCode⦄ where
  -- What a round does that leaves the connection open, by the branch that resolves: the message that
  -- the peer has sent is handed on, or that of the application is written.
  abbrev pub Passed : Choice → Context S R W → Context S R W → Type 0
  Passed frame_ready ctx ctx' =
      (f : Frame) × (e : AsgiReceiveEvent) × ((socket.read_frame ctx.websocket).1 ≡ ok f)
      × (event_of_frame f ≡ frame_received e)
      × Adds [] (e ∷ []) ctx ctx'
  Passed app_ready ctx ctx' =
      (t : ℕ) × (m : WebsocketSendEvent) × (frames : List Frame) × ((receiver.receive
          ctx.receive_from_app).1
        ≡ ready t (ok (websocket_send m)))
      × (build ctx.frame_builder m ≡ some frames)
      × Adds frames [] ctx ctx'

  WhenOpen-map :
      {p q : Context S R W → Type 0} (o : Option (State × Context S R W))
      → ((ctx : Context S R W) → p ctx → q ctx)
      → WhenOpen p o
      → WhenOpen q o
  WhenOpen-map none f w = tt
  WhenOpen-map (some (st, ctx)) f w = λ h. f ctx (w h)

  read_after :
      (ctx : Context S R W) (pongs answer : List Frame)
      → socket.written (socket.read_frame ctx.websocket).0
        ≡ (socket.written ctx.websocket ++ pongs) ++ answer
      → All IsPong pongs
      → IsAnswerTo (socket.read_frame ctx.websocket).1 answer
      → WhenOpen (Passed frame_ready ctx) (
          react
            (event_of_read (socket.read_frame ctx.websocket).1)
            (record ctx { websocket = (socket.read_frame ctx.websocket).0 }))
  read_after ctx pongs (c ∷ rest) w a j =
      let (k, e) = answered_closes (socket.read_frame ctx.websocket).1 j in
      react-closing (Passed frame_ready ctx) (event_of_read (socket.read_frame ctx.websocket).1) _ k
        e
  read_after ctx pongs [] w a j =
      let r = (socket.read_frame ctx.websocket).1 in
      let c = record ctx { websocket = (socket.read_frame ctx.websocket).0 } in
      let v = socket.written ctx.websocket in
      WhenOpen-map (react (event_of_read r) c)
        (λ ctx' (e, h, adds).
          let (f, k, l) = event_of_read-frame r e h in
          (
            f,
            e,
            k,
            l,
            record {
              to_peer =
                  adds.to_peer
                  ∙ ap (λ z. without_pongs z ++ []) (w ∙ append-nil (v ++ pongs))
                  ∙ ap (λ z. z ++ [])
                      (without_pongs-append v pongs
                        ∙ ap (λ z. without_pongs v ++ z) (without_pongs_none pongs a)
                        ∙ append-nil (without_pongs v));
              to_app = adds.to_app;
              builder = adds.builder;
            },
          ))
        (react-FromPeer (event_of_read r) c (event_of_read-FromPeer r))

  pub read-Passed :
      (ctx : Context S R W)
      → WhenOpen (Passed frame_ready ctx) (
          react
            (event_of_read (socket.read_frame ctx.websocket).1)
            (record ctx { websocket = (socket.read_frame ctx.websocket).0 }))
  read-Passed ctx =
      let (pongs, answer, w, a, i, j) = socket.written-read_frame ctx.websocket in
      read_after ctx pongs answer w a j

  pub receive-Passed :
      (ctx : Context S R W) (q : R) (t : ℕ) (r : CommunicationResult AsgiSendEvent)
      → (receiver.receive ctx.receive_from_app).1 ≡ ready t r
      → WhenOpen
          (Passed app_ready ctx)
          (react (event_of_received r) (record ctx { receive_from_app = q }))
  receive-Passed ctx q t r e =
      let c = record ctx { receive_from_app = q } in
      WhenOpen-map (react (event_of_received r) c)
        (λ ctx' (m, frames, h, b, adds). (
          t,
          m,
          frames,
          e ∙ ap (ready t) (event_of_received-asgi r (websocket_send m) h),
          b,
          record { to_peer = adds.to_peer; to_app = adds.to_app; builder = adds.builder },
        ))
        (react-FromApp (event_of_received r) c (event_of_received-FromApp r))
