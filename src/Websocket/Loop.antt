-- ===== src/Websocket/Loop.antt =====
-- websocket.rs: the trace of the whole loop of a connection.
use mathlib.Core.Option
use trap.Shared.{
  ◌++◌, All-append, append_assoc, ap, ◌≢◌, ℕ, suc, ◌-◌, ◌≡◌, refl, sym, ◌∙◌, subst, ◌⊎◌, inl, inr,
  Bool, true, false, Option, none, some, List, [], ◌∷◌, append-nil, length, All, Result, ok, err,
  ◌==◌, if◌then◌else◌,
}
use trap.Text.Utf8.{Str, Bytes}
use trap.Asgi.Spec.{AsgiSendEvent, AsgiReceiveEvent, websocket_close, websocket_send}
use trap.Errors.{
  WebSocketError, WebSocketErrorKind, connection_closed, unexpected_asgi_message, Debug,
}
use trap.Communication.Interface.{
  SendToAsgiApp, ReceiveFromAsgiApp, Awaited, ready, never, CommunicationResult, completed,
}
use trap.Websocket.Library.{
  IsPong, IsAnswer, IsAnswered, IsAnswerTo, OpCode, continuation, text, binary, close, Frame,
  new_frame, owned, WebsocketCrate, FrameSocket,
}
use trap.Websocket.Builder.{
  FrameBuilder, number_frames, to_frames, split_bytes, split_string, choose, build,
}
use trap.Websocket.Event.{
  Event, frame_received, asgi_event_received, connection_ended, error_occurred, event_of_message,
  payload_of, error_event, event_of_frame, event_of_read, event_of_asgi, event_of_received,
}
use trap.Websocket.Machine.{
  State, starting, running, closed, Context, Choice, frame_ready, app_ready, write_built,
  on_asgi_received, react, on_event, round, run_loop,
}
use trap.Websocket.Codes.{closing, on_event_closes}
use trap.Websocket.Trace.{
  IsOpenFrame, IsReceive, close-Answered, IsDataCode, IsDataFrame, IsMessage, Open, Told,
  close-Shut, on_error-Shut, write_frames-Told, on_frame_received-Told,
}

frame-IsData :
    (fin at_start : Bool) (op : OpCode) (c : Bytes)
    → IsDataCode op
    → IsDataFrame (new_frame fin (if at_start then op else continuation) (owned c))
frame-IsData fin true op c h = h
frame-IsData fin false op c h = tt

number_frames-IsData :
    (i total : ℕ) (op : OpCode) (chunks : List Bytes)
    → IsDataCode op
    → All IsDataFrame (number_frames i total op chunks)
unfolding number_frames
number_frames-IsData i total op [] h = tt
number_frames-IsData i total op (c ∷ cs) h =
    (frame-IsData (i == total - 1) (i == 0) op c h, number_frames-IsData (suc i) total op cs h)

built-IsData :
    (op : OpCode) (chunks : Option (List Bytes)) (frames : List Frame)
    → IsDataCode op
    → Option.map (to_frames op) chunks ≡ some frames
    → All IsDataFrame frames
unfolding to_frames
built-IsData op none frames h e = cc
built-IsData op (some cs) frames h e =
    subst (All IsDataFrame) (Option.some-injective _ _ e)
      (number_frames-IsData 0 (length cs) op cs h)

pub choose-IsData :
    (b : FrameBuilder) (t : Option Str) (bytes : Option Bytes) (frames : List Frame)
    → choose b t bytes ≡ some frames
    → All IsDataFrame frames
unfolding choose
choose-IsData b (some t) bytes frames e = built-IsData text (split_string b t) frames tt e
choose-IsData b none (some bytes) frames e = built-IsData binary (split_bytes b bytes) frames tt e
choose-IsData b none none frames e = subst (All IsDataFrame) (Option.some-injective _ _ e) (tt, tt)

pub Awaited-cases :
    {A : Type 0} (f : Awaited A) → (f ≡ never) ⊎ ((t : ℕ) × (a : A) × (f ≡ ready t a))
Awaited-cases never = inl refl
Awaited-cases (ready t a) = inr (t, a, refl)

-- What a read or a receive gives to react to.
abbrev IsExpected : Event → Type 0
IsExpected (frame_received event) = IsMessage event
IsExpected _ = Unit {0}

module _ ⦃ws : WebsocketCrate⦄ ⦃opcodes : Debug OpCode⦄ where
  event_of_message-IsExpected :
      (op : OpCode) (bytes : Option Bytes) → IsExpected (event_of_message op bytes)
  unfolding event_of_message
  event_of_message-IsExpected text bytes = tt
  event_of_message-IsExpected binary bytes = tt
  event_of_message-IsExpected close bytes = tt
  event_of_message-IsExpected _ bytes = tt

  error_event-IsExpected :
      (k : WebSocketErrorKind) (e : WebSocketError) → IsExpected (error_event k e)
  unfolding error_event
  error_event-IsExpected connection_closed e = tt
  error_event-IsExpected _ e = tt

  event_of_read-IsExpected : (r : Result Frame WebSocketError) → IsExpected (event_of_read r)
  unfolding event_of_read
  event_of_read-IsExpected (ok f) = event_of_message-IsExpected f.opcode (payload_of f.payload)
  event_of_read-IsExpected (err e) = error_event-IsExpected e.kind e

pongs-IsOpen : (fs : List Frame) → All IsPong fs → All IsOpenFrame fs
pongs-IsOpen [] a = tt
pongs-IsOpen (f ∷ fs) (e, a) = (inr e, pongs-IsOpen fs a)

module _ ⦃ws : WebsocketCrate⦄ ⦃opcodes : Debug OpCode⦄ where
  message_closes :
      (op : OpCode) (bytes : Option Bytes)
      → op ≡ close
      → (k : ℕ × Str) × (closing (event_of_message op bytes) ≡ some k)
  unfolding event_of_message
  message_closes close bytes e = (_, refl)
  message_closes text bytes e = absurd (cc e)
  message_closes binary bytes e = absurd (cc e)
  message_closes _ bytes e = absurd (cc e)

  error_closes :
      (kind : WebSocketErrorKind) (e : WebSocketError)
      → (k : ℕ × Str) × (closing (error_event kind e) ≡ some k)
  unfolding error_event
  error_closes connection_closed e = (_, refl)
  error_closes _ e = (_, refl)

  -- A read that has answered a close frame closes the connection.
  pub answered_closes :
      (out : Result Frame WebSocketError)
      → IsAnswered out
      → (k : ℕ × Str) × (closing (event_of_read out) ≡ some k)
  unfolding event_of_read event_of_frame
  answered_closes (ok f) e = message_closes f.opcode (payload_of f.payload) e
  answered_closes (err e) i = error_closes e.kind e

module _ ⦃debug : Debug AsgiSendEvent⦄ where
  event_of_asgi-IsExpected : (e : AsgiSendEvent) → IsExpected (event_of_asgi e)
  unfolding event_of_asgi
  event_of_asgi-IsExpected (websocket_send m) = tt
  event_of_asgi-IsExpected _ = tt

  event_of_received-IsExpected :
      (r : CommunicationResult AsgiSendEvent) → IsExpected (event_of_received r)
  unfolding event_of_received
  event_of_received-IsExpected (ok m) = event_of_asgi-IsExpected m
  event_of_received-IsExpected (err completed) = tt
  event_of_received-IsExpected (err _) = tt

module _ {S R W : Type 0} ⦃sender : SendToAsgiApp S⦄ ⦃receiver : ReceiveFromAsgiApp R⦄
    ⦃socket : FrameSocket W⦄ ⦃ws : WebsocketCrate⦄ ⦃debug : Debug AsgiSendEvent⦄
    ⦃opcodes : Debug OpCode⦄ (w0 : List Frame) (d0 : List AsgiReceiveEvent) where
  -- The claim about an outcome of a step.
  abbrev Keeps : Option (State × Context S R W) → Type 0
  Keeps none = Unit {0}
  Keeps (some (st, ctx)) = Told w0 d0 st ctx

  write_built-Keeps :
      (frames : Option (List Frame)) (ctx : Context S R W)
      → ((fs : List Frame) → frames ≡ some fs → All IsDataFrame fs)
      → Open w0 d0 ctx
      → Keeps (write_built frames ctx)
  unfolding write_built
  write_built-Keeps none ctx h o = tt
  write_built-Keeps (some fs) ctx h o = write_frames-Told w0 d0 fs ctx (h fs refl) o

  on_asgi_received-Keeps :
      (e : AsgiSendEvent) (ctx : Context S R W) → Open w0 d0 ctx → Keeps (on_asgi_received e ctx)
  unfolding on_asgi_received build
  on_asgi_received-Keeps (websocket_send m) ctx o =
      write_built-Keeps _ ctx (choose-IsData ctx.frame_builder m.text m.bytes) o
  on_asgi_received-Keeps (websocket_close m) ctx o = close-Shut w0 d0 m.code m.reason ctx o
  on_asgi_received-Keeps msg ctx o =
      on_error-Shut w0 d0 (unexpected_asgi_message (debug.debug msg)) ctx o

  react-Keeps :
      (e : Event) (ctx : Context S R W) → IsExpected e → Open w0 d0 ctx → Keeps (react e ctx)
  unfolding react
  react-Keeps (frame_received event) ctx i o = on_frame_received-Told w0 d0 event ctx i o
  react-Keeps (asgi_event_received event) ctx i o = on_asgi_received-Keeps event ctx o
  react-Keeps (error_occurred error) ctx i o = on_error-Shut w0 d0 error ctx o
  react-Keeps connection_ended ctx i o = close-Shut w0 d0 _ _ ctx o

  on_event-Keeps :
      (st : State) (e : Event) (ctx : Context S R W)
      → IsExpected e
      → Told w0 d0 st ctx
      → Keeps (on_event st e ctx)
  unfolding on_event
  on_event-Keeps closed e ctx i t = t
  on_event-Keeps starting e ctx i t = react-Keeps e ctx i t
  on_event-Keeps running e ctx i t = react-Keeps e ctx i t

  Open-Told : (st : State) (ctx : Context S R W) → st ≢ closed → Open w0 d0 ctx → Told w0 d0 st ctx
  Open-Told closed ctx n o = absurd (n refl)
  Open-Told starting ctx n o = o
  Open-Told running ctx n o = o

  -- What has been read, after whatever answers of the read itself: an answered close frame closes.
  read-Keeps :
      (answer : List Frame) (out : Result Frame WebSocketError) (st : State) (ctx : Context S R W)
      (fs : List Frame) (es : List AsgiReceiveEvent)
      → st ≢ closed
      → All IsOpenFrame fs
      → All IsReceive es
      → IsAnswer answer
      → IsAnswerTo out answer
      → socket.written ctx.websocket ≡ (w0 ++ fs) ++ answer
      → sender.delivered ctx.send_to_app ≡ d0 ++ es
      → Keeps (on_event st (event_of_read out) ctx)
  read-Keeps [] out st ctx fs es n p q i j v d =
      on_event-Keeps st (event_of_read out) ctx (event_of_read-IsExpected out)
        (Open-Told st ctx n (fs, es, p, q, v ∙ append-nil (w0 ++ fs), d))
  read-Keeps (c ∷ rest) out st ctx fs es n p q i j v d =
      let ((code, reason), e) = answered_closes out j in
      subst Keeps (sym (on_event_closes st (event_of_read out) ctx code reason n e))
        (close-Answered w0 d0 code reason ctx (fs, es, p, q, c ∷ rest, i, v, d))

  frame-Keeps :
      (st : State) (ctx : Context S R W)
      → st ≢ closed
      → Open w0 d0 ctx
      → Keeps (round frame_ready st ctx)
  unfolding round
  frame-Keeps st ctx n (fs, es, p, q, e, d) =
      let (pongs, answer, w, a, i, j) = socket.written-read_frame ctx.websocket in
      read-Keeps answer (socket.read_frame ctx.websocket).1 st
        (record ctx { websocket = (socket.read_frame ctx.websocket).0 }) (fs ++ pongs) es n
        (All-append IsOpenFrame fs pongs p (pongs-IsOpen pongs a)) q i j
        (w ∙ ap (λ z. (z ++ pongs) ++ answer) e ∙ ap (λ z. z ++ answer) (append_assoc w0 fs pongs))
        d

  round-Keeps :
      (c : Choice) (st : State) (ctx : Context S R W)
      → st ≢ closed
      → Open w0 d0 ctx
      → Keeps (round c st ctx)
  unfolding round
  round-Keeps frame_ready st ctx n o = frame-Keeps st ctx n o
  round-Keeps app_ready st ctx n o =
      elim (Awaited-cases (receiver.receive ctx.receive_from_app).1) [
        | inl e ↦ rw (e, round) tt
        | inr (t, a, e) ↦
            rw (e, round)
              (on_event-Keeps st (event_of_received a)
                (record ctx { receive_from_app = (receiver.receive ctx.receive_from_app).0 })
                (event_of_received-IsExpected a)
                (Open-Told st
                  (record ctx { receive_from_app = (receiver.receive ctx.receive_from_app).0 }) n
                  o))
      ]

  run-Keeps :
      (o : Option (State × Context S R W)) (cs : List Choice)
      → Keeps o
      → ((st : State) (ctx : Context S R W) → Told w0 d0 st ctx → Keeps (run_loop cs st ctx))
      → Keeps (elim o [ none ↦ none | some (st, ctx) ↦ run_loop cs st ctx ])
  run-Keeps none cs k h = tt
  run-Keeps (some (st, ctx)) cs k h = h st ctx k

  run_loop-Keeps :
      (cs : List Choice) (st : State) (ctx : Context S R W)
      → Told w0 d0 st ctx
      → Keeps (run_loop cs st ctx)
  unfolding run_loop
  run_loop-Keeps [] st ctx t = t
  run_loop-Keeps (c ∷ cs) closed ctx t = t
  run_loop-Keeps (c ∷ cs) starting ctx t =
      run-Keeps (round c starting ctx) cs (round-Keeps c starting ctx (λ e. cc e) t)
        (λ st ctx' t'. run_loop-Keeps cs st ctx' t')
  run_loop-Keeps (c ∷ cs) running ctx t =
      run-Keeps (round c running ctx) cs (round-Keeps c running ctx (λ e. cc e) t)
        (λ st ctx' t'. run_loop-Keeps cs st ctx' t')

module _ {S R W : Type 0} ⦃sender : SendToAsgiApp S⦄ ⦃receiver : ReceiveFromAsgiApp R⦄
    ⦃socket : FrameSocket W⦄ ⦃ws : WebsocketCrate⦄ ⦃debug : Debug AsgiSendEvent⦄
    ⦃opcodes : Debug OpCode⦄ where
  -- Whatever branches resolve, a connection sends the peer data frames and pongs only and the
  -- application messages only for as long as it is not closed. A close frame follows at most twice,
  -- and then nothing: at most one with which a read answers the peer's on its own, and at most one of
  -- the server's, while the application is sent at most one disconnect, of the same code and reason as
  -- the server's close frame, and nothing after it.
  pub run_loop-Told :
      (cs : List Choice) (ctx ctx' : Context S R W) (st : State)
      → run_loop cs starting ctx ≡ some (st, ctx')
      → Told (socket.written ctx.websocket) (sender.delivered ctx.send_to_app) st ctx'
  run_loop-Told cs ctx ctx' st e = rw e at (
      run_loop-Keeps (socket.written ctx.websocket) (sender.delivered ctx.send_to_app) cs starting
        ctx
        (
          [],
          [],
          tt,
          tt,
          sym (append-nil (socket.written ctx.websocket)),
          sym (append-nil (sender.delivered ctx.send_to_app)),
        ))
