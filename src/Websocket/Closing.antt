-- ===== src/Websocket/Closing.antt =====
-- websocket.rs: what one event does to a connection, and what texts and close frames become.
use trap.Shared.{
  ℕ, ◌+◌, ◌*◌, ◌/◌, ◌%◌, ◌<◌, ◌≤◌, ◌≡◌, refl, ◌≢◌, true, none, some, List, length, All, arith,
}
use trap.Text.Utf8.{Str, encode, IsScalar}
use trap.Text.RoundTrip.{from_utf8-encode, from_utf8_lossy-from_utf8}
use trap.Asgi.Spec.{AsgiSendEvent, new_websocket_receive, new_websocket_disconnect}
use trap.Errors.{Debug}
use trap.Communication.Interface.{SendToAsgiApp}
use trap.Websocket.Library.{OpCode, text, Frame, new_frame, owned, WebsocketCrate, FrameSocket}
use trap.Websocket.Builder.{FrameBuilder, build}
use trap.Websocket.Splitting.{isize_max}
use trap.Websocket.Assembly.{assemble, build_total}
use trap.Websocket.Event.{frame_received, event_of_frame}
use trap.Websocket.Codes.{IsClosedWith, close-IsClosedWith}
use trap.Websocket.Machine.{State, starting, running, closed, Context, close, on_event}

module _ ⦃ws : WebsocketCrate⦄ ⦃opcodes : Debug OpCode⦄ where
  event_of_text :
      (t : Str)
      → All IsScalar t
      → event_of_frame (new_frame true text (owned (encode t)))
        ≡ frame_received (new_websocket_receive none (some t))
  unfolding event_of_frame
  event_of_text t h = rw (from_utf8-encode t h)

  -- A text of scalar values that Rust can hold, which an application sends, cut into frames under a
  -- limit above 0 and put together again by a receiver, is read there as a message with the very same
  -- text.
  pub build-event_of_frame :
      (b : FrameBuilder) (t : Str)
      → 0 < b.max_frame_size
      → All IsScalar t
      → length (encode t) ≤ isize_max
      → (frames : List Frame) × (build b (record { bytes = none; text = some t }) ≡ some frames)
        × (assemble frames ≡ some (text, encode t))
        × (event_of_frame (new_frame true text (owned (encode t)))
            ≡ frame_received (new_websocket_receive none (some t)))
  build-event_of_frame b t p h k =
      let (frames, e, m) = build_total b (record { bytes = none; text = some t }) p k in
      (frames, e, m.assembled, event_of_text t h)

  event_of_close_frame :
      (code : ℕ) (reason : Str)
      → All IsScalar reason
      → event_of_frame (ws.close_frame code (encode reason))
        ≡ frame_received (new_websocket_disconnect code reason)
  unfolding event_of_frame
  event_of_close_frame code reason h = rw (
    ws.close_frame_lem code (encode reason),
    from_utf8_lossy-from_utf8 (encode reason) reason (from_utf8-encode reason h),
    split_code code,
  )
    where
      split_code : (code : ℕ) → code / 256 * 256 + code % 256 ≡ code
      split_code code = omega arith

module _ {S R W : Type 0} ⦃sender : SendToAsgiApp S⦄ ⦃socket : FrameSocket W⦄ ⦃ws : WebsocketCrate⦄
    ⦃debug : Debug AsgiSendEvent⦄ where
  closes_same :
      ⦃opcodes : Debug OpCode⦄
      → (st : State) (ctx : Context S R W) (code : ℕ) (reason : Str) → st ≢ closed
      → All IsScalar reason
      → on_event st (event_of_frame (ws.close_frame code (encode reason))) ctx
        ≡ some (close code reason ctx)
  unfolding on_event
  closes_same closed ctx code reason n h = absurd (n refl)
  closes_same starting ctx code reason n h = rw (event_of_close_frame code reason h)
  closes_same running ctx code reason n h = rw (event_of_close_frame code reason h)

  -- A close frame of the peer, with a reason that is a text, closes a connection that is not yet closed:
  -- a close frame from which the very code and reason are read is sent to the peer, unless writing it
  -- fails, and a disconnect with the two to the application, unless sending it fails.
  pub on_event-close_frame :
      ⦃opcodes : Debug OpCode⦄
      → (st : State) (ctx : Context S R W) (code : ℕ) (reason : Str) → st ≢ closed
      → All IsScalar reason
      → IsClosedWith code reason ctx
          (on_event st (event_of_frame (ws.close_frame code (encode reason))) ctx)
  on_event-close_frame st ctx code reason n h =
      close-IsClosedWith code reason ctx _ h (closes_same st ctx code reason n h)
