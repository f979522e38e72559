-- ===== src/Websocket/Machine.antt =====
-- `State`, `Context` and the loop of `run_protocol`: the state machine of one connection. `none` is a
-- step that does not return: `FrameBuilder::build` does not, or the branch never resolves.
use trap.Shared.{ℕ, Option, none, some, List, [], ◌∷◌, Result, ok, err}
use trap.Text.Utf8.{Str, str, encode}
use trap.Asgi.Spec.{
  AsgiSendEvent, AsgiReceiveEvent, websocket_close, websocket_send, websocket_disconnect,
  new_websocket_disconnect,
}
use trap.Errors.{
  ArasError, websocket_error, unexpected_asgi_message, WebSocketError, WebSocketErrorKind,
  invalid_close_code, invalid_close_frame, invalid_utf8, Debug,
}
use trap.Communication.Interface.{
  SendToAsgiApp, ReceiveFromAsgiApp, ready, never, application_result_into,
}
use trap.Websocket.Library.{OpCode, Frame, WebsocketCrate, FrameSocket}
use trap.Websocket.Builder.{FrameBuilder, build}
use trap.Websocket.Event.{
  Event, frame_received, asgi_event_received, connection_ended, error_occurred, event_of_read,
  event_of_received,
}

pub data State : Type 0 where
  starting running closed : State

pub record Context (S R W : Type 0) : Type 0 where
  pub frame_builder : FrameBuilder
  pub send_to_app : S
  pub receive_from_app : R
  pub websocket : W

-- The branch of `tokio::select!` that resolves. The future of the other one is dropped.
pub data Choice : Type 0 where
  frame_ready app_ready : Choice

module _ {S R W : Type 0} ⦃sender : SendToAsgiApp S⦄ ⦃socket : FrameSocket W⦄ ⦃ws : WebsocketCrate⦄
    ⦃debug : Debug AsgiSendEvent⦄ where
  -- `State::close`. The outcomes of the write and of the send are ignored.
  unfoldable pub close : ℕ → Str → Context S R W → State × Context S R W
  close code msg ctx =
      let w = (socket.write_frame ctx.websocket (ws.close_frame code (encode msg))).0 in
      let s = (sender.send ctx.send_to_app (new_websocket_disconnect code msg)).0 in
      (closed, record ctx { websocket = w; send_to_app = s })

  -- `match e.as_ref()`
  unfoldable pub close_on : WebSocketErrorKind → Context S R W → State × Context S R W
  unfolding close
  close_on invalid_close_code = close ws.protocol (str "Protocol error")
  close_on invalid_close_frame = close ws.protocol (str "Protocol error")
  close_on invalid_utf8 = close ws.invalid (str "Invalid UTF-8 data received")
  close_on _ = close ws.error (str "Internal server error")

  unfoldable pub on_error : ArasError → Context S R W → State × Context S R W
  unfolding close_on
  on_error (websocket_error e) = close_on e.kind
  on_error _ = close ws.error (str "Internal server error")

  unfoldable pub on_frame_received : AsgiReceiveEvent → Context S R W → State × Context S R W
  unfolding on_error application_result_into
  on_frame_received (websocket_disconnect msg) ctx = close msg.code msg.reason ctx
  on_frame_received frame ctx =
      let (s, sent) = sender.send ctx.send_to_app frame in
      let ctx' = record ctx { send_to_app = s } in
      elim sent [ ok _ ↦ (running, ctx') | err e ↦ on_error (application_result_into e) ctx' ]

  -- `while let Some(frame) = frames.pop_front()`
  unfoldable pub write_frames : List Frame → Context S R W → State × Context S R W
  unfolding on_error
  write_frames [] ctx = (running, ctx)
  write_frames (frame ∷ frames) ctx =
      let (w, wrote) = socket.write_frame ctx.websocket frame in
      let ctx' = record ctx { websocket = w } in
      elim wrote [ ok _ ↦ write_frames frames ctx' | err e ↦ on_error (websocket_error e) ctx' ]

  unfoldable pub write_built : Option (List Frame) → Context S R W → Option (State × Context S R W)
  unfolding write_frames
  write_built none ctx = none
  write_built (some frames) ctx = some (write_frames frames ctx)

  unfoldable pub on_asgi_received : AsgiSendEvent → Context S R W → Option (State × Context S R W)
  unfolding close on_error write_built
  on_asgi_received (websocket_send msg) ctx = write_built (build ctx.frame_builder msg) ctx
  on_asgi_received (websocket_close msg) ctx = some (close msg.code msg.reason ctx)
  on_asgi_received asgi ctx = some (on_error (unexpected_asgi_message (debug.debug asgi)) ctx)

  -- The `match` of `State::on_event`.
  unfoldable pub react : Event → Context S R W → Option (State × Context S R W)
  unfolding close on_error on_frame_received on_asgi_received
  react (frame_received frame) ctx = some (on_frame_received frame ctx)
  react (asgi_event_received asgi) ctx = on_asgi_received asgi ctx
  react (error_occurred error) ctx = some (on_error error ctx)
  react connection_ended ctx = some (close ws.normal (str "Connection closed") ctx)

  unfoldable pub on_event : State → Event → Context S R W → Option (State × Context S R W)
  unfolding react
  on_event closed event ctx = some (closed, ctx)
  on_event starting event ctx = react event ctx
  on_event running event ctx = react event ctx

module _ {S R W : Type 0} ⦃sender : SendToAsgiApp S⦄ ⦃receiver : ReceiveFromAsgiApp R⦄
    ⦃socket : FrameSocket W⦄ ⦃ws : WebsocketCrate⦄ ⦃debug : Debug AsgiSendEvent⦄
    ⦃opcodes : Debug OpCode⦄ where
  -- `Event::next`; `none` is a branch that does not resolve.
  unfoldable pub next_event : Choice → Context S R W → Option (Event × Context S R W)
  unfolding event_of_read event_of_received
  next_event frame_ready ctx =
      let (w, out) = socket.read_frame ctx.websocket in
      some (event_of_read out, record ctx { websocket = w })
  next_event app_ready ctx =
      let (r, out) = receiver.receive ctx.receive_from_app in
      elim out [
        | ready t received ↦ some (event_of_received received, record ctx { receive_from_app = r })
        | never ↦ none
      ]

  -- One round of the loop.
  unfoldable pub round : Choice → State → Context S R W → Option (State × Context S R W)
  unfolding next_event on_event
  round c state ctx = elim (next_event c ctx) [
    | none ↦ none
    | some (event, ctx') ↦ on_event state event ctx'
  ]

  -- `while !matches!(state, State::Closed)`, over the branches that resolve; when they run out the
  -- loop is still waiting.
  unfoldable pub run_loop : List Choice → State → Context S R W → Option (State × Context S R W)
  unfolding round
  run_loop [] state ctx = some (state, ctx)
  run_loop (c ∷ cs) closed ctx = some (closed, ctx)
  run_loop (c ∷ cs) state ctx = elim (round c state ctx) [
    | none ↦ none
    | some (state', ctx') ↦ run_loop cs state' ctx'
  ]

  -- `WebsocketHandler::run_protocol`, once the upgrade has resolved: without a connection nothing
  -- is done.
  unfoldable pub run_protocol :
      ℕ → List Choice → Result W WebSocketError → S → R → Option (State × Option (Context S R W))
  unfolding run_loop
  run_protocol size cs (err e) s r = some (starting, none)
  run_protocol size cs (ok w) s r =
      elim (run_loop cs starting (record {
        frame_builder = record { max_frame_size = size };
        send_to_app = s;
        receive_from_app = r;
        websocket = w;
      })) [ none ↦ none | some (state, ctx) ↦ some (state, some ctx) ]
