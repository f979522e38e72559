-- ===== src/Websocket/Exchange.antt =====
-- websocket.rs: what one round of the loop does that leaves the connection open.
use trap.Shared.{
  ℕ, All, subst, ◌≡◌, refl, sym, ap, ◌∙◌, inl, inr, Option, none, some, List, [], ◌∷◌, ◌++◌,
  append_assoc, append-nil, Result-cases,
}
use trap.Asgi.Events.{WebsocketSendEvent}
use trap.Asgi.Spec.{
  AsgiSendEvent, AsgiReceiveEvent, websocket_receive, websocket_disconnect, websocket_send,
  websocket_close,
}
use trap.Errors.{
  ArasError, WebSocketErrorKind, invalid_close_code, invalid_close_frame, invalid_utf8,
  connection_closed, other, Debug, websocket_error, unexpected_asgi_message,
}
use trap.Communication.Interface.{SendToAsgiApp, application_result_into}
use trap.Websocket.Library.{
  OpCode, text, binary, continuation, pong, IsPong, Frame, WebsocketCrate, FrameSocket,
}
use trap.Websocket.Builder.{FrameBuilder, build}
use trap.Text.Utf8.{Str}
use trap.Websocket.Codes.{closing, on_event_closes}
use trap.Websocket.Loop.{choose-IsData}
use trap.Websocket.Event.{
  Event, frame_received, asgi_event_received, connection_ended, error_occurred,
}
use trap.Websocket.Machine.{
  State, starting, running, closed, Context, write_frames, write_built, close_on, on_error,
  on_frame_received, on_asgi_received, react, on_event,
}
use trap.Websocket.Machine
use trap.Websocket.Trace.{IsMessage, IsDataCode, IsDataFrame}

-- `!matches!(state, State::Closed)`
abbrev pub IsOpen : State → Type 0
IsOpen closed = ⊥
IsOpen _ = Unit {0}

abbrev unless_pong : OpCode → Frame → List Frame
unless_pong pong f = []
unless_pong _ f = f ∷ []

-- What was written but for the pongs.
abbrev pub without_pongs : List Frame → List Frame
without_pongs [] = []
without_pongs (f ∷ fs) = unless_pong f.opcode f ++ without_pongs fs

pub without_pongs-append :
    (xs ys : List Frame) → without_pongs (xs ++ ys) ≡ without_pongs xs ++ without_pongs ys
without_pongs-append [] ys = refl
without_pongs-append (f ∷ xs) ys =
    ap (λ z. unless_pong f.opcode f ++ z) (without_pongs-append xs ys)
    ∙ sym (append_assoc (unless_pong f.opcode f) (without_pongs xs) (without_pongs ys))

pub without_pongs_none : (ps : List Frame) → All IsPong ps → without_pongs ps ≡ []
without_pongs_none [] a = refl
without_pongs_none (p ∷ ps) (e, a) = rw (e, without_pongs_none ps a) refl

unless_pong_data : (op : OpCode) (f : Frame) → IsDataCode op → unless_pong op f ≡ f ∷ []
unless_pong_data text f i = refl
unless_pong_data binary f i = refl
unless_pong_data continuation f i = refl
unless_pong_data _ f i = absurd i

without_pongs_data :
    (xs : List Frame) (f : Frame)
    → IsDataFrame f
    → without_pongs (xs ++ f ∷ []) ≡ without_pongs xs ++ f ∷ []
without_pongs_data xs f i =
    without_pongs-append xs (f ∷ [])
    ∙ ap (λ z. without_pongs xs ++ z)
        (append-nil (unless_pong f.opcode f) ∙ unless_pong_data f.opcode f i)

-- What an event of a read, and an event of a receive, can do.
abbrev pub FromPeer : Event → Type 0
FromPeer (frame_received e) = IsMessage e
FromPeer (asgi_event_received e) = ⊥
FromPeer _ = Unit {0}

abbrev pub FromApp : Event → Type 0
FromApp (frame_received e) = ⊥
FromApp _ = Unit {0}

built_data :
    (b : FrameBuilder) (m : WebsocketSendEvent) (frames : List Frame)
    → build b m ≡ some frames
    → All IsDataFrame frames
unfolding build
built_data b m frames e = choose-IsData b m.text m.bytes frames e

module _ {S R W : Type 0} ⦃sender : SendToAsgiApp S⦄ ⦃socket : FrameSocket W⦄ where
  -- In between, the peer was sent the frames, with or without pongs among them, and the application the
  -- events, and no more.
  pub record Adds (frames : List Frame) (events : List AsgiReceiveEvent) (ctx ctx' : Context S R W)
      : Type 0 where
    pub to_peer :
        without_pongs (socket.written ctx'.websocket)
        ≡ without_pongs (socket.written ctx.websocket) ++ frames
    pub to_app : sender.delivered ctx'.send_to_app ≡ sender.delivered ctx.send_to_app ++ events
    pub builder : ctx'.frame_builder ≡ ctx.frame_builder

  -- The claim about an outcome of a step, if it leaves the connection open.
  abbrev pub WhenOpen : (Context S R W → Type 0) → Option (State × Context S R W) → Type 0
  WhenOpen p none = Unit {0}
  WhenOpen p (some (st, ctx)) = IsOpen st → p ctx

module _ {S R W : Type 0} ⦃sender : SendToAsgiApp S⦄ ⦃socket : FrameSocket W⦄ ⦃ws : WebsocketCrate⦄
    ⦃debug : Debug AsgiSendEvent⦄ where
  close_on_closes : (k : WebSocketErrorKind) (ctx : Context S R W) → (close_on k ctx).0 ≡ closed
  unfolding close_on Machine.close
  close_on_closes invalid_close_code ctx = refl
  close_on_closes invalid_close_frame ctx = refl
  close_on_closes invalid_utf8 ctx = refl
  close_on_closes connection_closed ctx = refl
  close_on_closes other ctx = refl

  on_error_closes : (e : ArasError) (ctx : Context S R W) → (on_error e ctx).0 ≡ closed
  unfolding on_error Machine.close
  on_error_closes (websocket_error e) ctx = close_on_closes e.kind ctx
  on_error_closes _ ctx = refl

  not_open : {A : Type 0} (e : ArasError) (ctx : Context S R W) → IsOpen (on_error e ctx).0 → A
  not_open e ctx h = absurd (rw (on_error_closes e ctx) at h)

  on_frame_received-Adds :
      (event : AsgiReceiveEvent) (ctx : Context S R W)
      → IsMessage event
      → IsOpen (on_frame_received event ctx).0
      → Adds [] (event ∷ []) ctx (on_frame_received event ctx).1
  unfolding on_frame_received Machine.close
  on_frame_received-Adds (websocket_disconnect m) ctx i h = absurd h
  on_frame_received-Adds (websocket_receive m) ctx i h =
      let law = sender.delivered-send ctx.send_to_app (websocket_receive m) in
      let ctx' = record ctx {
        send_to_app = (sender.send ctx.send_to_app (websocket_receive m)).0;
      } in
      elim (Result-cases (sender.send ctx.send_to_app (websocket_receive m)).1) [
        | inl (u, r) ↦
            rw (r, on_frame_received)
              (record {
                to_peer = sym (append-nil (without_pongs (socket.written ctx.websocket)));
                to_app = rw r at law;
                builder = refl;
              })
        | inr (x, r) ↦ not_open (application_result_into x) ctx' (rw (r, on_frame_received) at h)
      ]
  on_frame_received-Adds _ ctx i h = absurd i

  write_frames-Adds :
      (frames : List Frame) (ctx : Context S R W)
      → All IsDataFrame frames
      → IsOpen (write_frames frames ctx).0
      → Adds frames [] ctx (write_frames frames ctx).1
  unfolding write_frames
  write_frames-Adds [] ctx i h = record {
    to_peer = sym (append-nil (without_pongs (socket.written ctx.websocket)));
    to_app = sym (append-nil (sender.delivered ctx.send_to_app));
    builder = refl;
  }
  write_frames-Adds (f ∷ frames) ctx (i, a) h =
      let w = (socket.write_frame ctx.websocket f).0 in
      let ctx' = record ctx { websocket = w } in
      let law = socket.written-write_frame ctx.websocket f in
      elim (Result-cases (socket.write_frame ctx.websocket f).1) [
        | inl (u, r) ↦
            let rest = write_frames-Adds frames ctx' a (rw (r, write_frames) at h) in
            rw (r, write_frames)
              (record {
                to_peer =
                    rest.to_peer
                    ∙ ap (λ z. without_pongs z ++ frames) (rw r at law)
                    ∙ ap (λ z. z ++ frames) (without_pongs_data (socket.written ctx.websocket) f i)
                    ∙ append_assoc (without_pongs (socket.written ctx.websocket)) (f ∷ []) frames;
                to_app = rest.to_app;
                builder = rest.builder;
              })
        | inr (x, r) ↦ not_open (websocket_error x) ctx' (rw (r, write_frames) at h)
      ]

  pub react-FromPeer :
      (event : Event) (ctx : Context S R W)
      → FromPeer event
      → WhenOpen
          (λ ctx'. (e : AsgiReceiveEvent) × (event ≡ frame_received e) × Adds [] (e ∷ []) ctx ctx')
          (react event ctx)
  unfolding react Machine.close
  react-FromPeer (frame_received e) ctx i = λ h. (e, refl, on_frame_received-Adds e ctx i h)
  react-FromPeer (asgi_event_received e) ctx i = absurd i
  react-FromPeer connection_ended ctx i = λ h. absurd h
  react-FromPeer (error_occurred e) ctx i = λ h. not_open e ctx h

  abbrev pub Sends : Event → Context S R W → Context S R W → Type 0
  Sends event ctx ctx' =
      (m : WebsocketSendEvent) × (frames : List Frame) × (event
        ≡ asgi_event_received (websocket_send m))
      × (build ctx.frame_builder m ≡ some frames)
      × Adds frames [] ctx ctx'

  write_built-Adds :
      (m : WebsocketSendEvent) (built : Option (List Frame)) (ctx : Context S R W)
      → build ctx.frame_builder m ≡ built
      → WhenOpen (Sends (asgi_event_received (websocket_send m)) ctx) (write_built built ctx)
  unfolding write_built
  write_built-Adds m none ctx e = tt
  write_built-Adds m (some frames) ctx e = λ h.
      (m, frames, refl, e, write_frames-Adds frames ctx (built_data ctx.frame_builder m frames e) h)

  on_asgi_received-Adds :
      (e : AsgiSendEvent) (ctx : Context S R W)
      → WhenOpen (Sends (asgi_event_received e) ctx) (on_asgi_received e ctx)
  unfolding on_asgi_received Machine.close
  on_asgi_received-Adds (websocket_send m) ctx = write_built-Adds m _ ctx refl
  on_asgi_received-Adds (websocket_close m) ctx = λ h. absurd h
  on_asgi_received-Adds msg ctx = λ h. not_open (unexpected_asgi_message (debug.debug msg)) ctx h

  -- An event that closes leaves nothing open.
  pub react-closing :
      (p : Context S R W → Type 0) (event : Event) (ctx : Context S R W) (k : ℕ × Str)
      → closing event ≡ some k
      → WhenOpen p (react event ctx)
  unfolding on_event Machine.close
  react-closing p event ctx (code, reason) e =
      subst (WhenOpen p) (sym (on_event_closes starting event ctx code reason (λ z. cc z) e))
        (λ h. absurd h)

  pub react-FromApp :
      (event : Event) (ctx : Context S R W)
      → FromApp event
      → WhenOpen (Sends event ctx) (react event ctx)
  unfolding react Machine.close
  react-FromApp (frame_received e) ctx i = absurd i
  react-FromApp (asgi_event_received e) ctx i = on_asgi_received-Adds e ctx
  react-FromApp connection_ended ctx i = λ h. absurd h
  react-FromApp (error_occurred e) ctx i = λ h. not_open e ctx h
