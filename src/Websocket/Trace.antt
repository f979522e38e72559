-- ===== src/Websocket/Trace.antt =====
-- websocket.rs: what the peer and the application are told over a connection.
use trap.Shared.{
  ℕ, ◌≡◌, ap, ◌∙◌, ◌⊎◌, inl, inr, List, [], ◌∷◌, ◌++◌, append_assoc, All, All-append, append-nil,
  sym, ok, err, Result-cases,
}
use trap.Text.Utf8.{Str, encode}
use trap.Asgi.Spec.{
  AsgiSendEvent, AsgiReceiveEvent, websocket_receive, websocket_disconnect,
  new_websocket_disconnect,
}
use trap.Errors.{
  ArasError, WebSocketError, WebSocketErrorKind, invalid_close_code, invalid_close_frame,
  invalid_utf8, connection_closed, other, Debug, websocket_error,
}
use trap.Communication.Interface.{SendToAsgiApp, application_result_into}
use trap.Websocket.Library.{
  OpCode, text, binary, continuation, IsPong, IsAnswer, Frame, WebsocketCrate, FrameSocket,
}
use trap.Websocket.Machine.{
  State, starting, running, closed, Context, write_frames, close_on, on_error, on_frame_received,
}
use trap.Websocket.Machine

-- A data frame, and a data frame or a pong.
abbrev pub IsDataCode : OpCode → Type 0
IsDataCode text = Unit {0}
IsDataCode binary = Unit {0}
IsDataCode continuation = Unit {0}
IsDataCode _ = ⊥

abbrev pub IsDataFrame : Frame → Type 0
IsDataFrame f = IsDataCode f.opcode

abbrev pub IsOpenFrame : Frame → Type 0
IsOpenFrame f = IsDataFrame f ⊎ IsPong f

abbrev pub IsReceive : AsgiReceiveEvent → Type 0
IsReceive (websocket_receive _) = Unit {0}
IsReceive _ = ⊥

-- What a read can give to hand on: a message or the peer's close frame.
abbrev pub IsMessage : AsgiReceiveEvent → Type 0
IsMessage (websocket_receive _) = Unit {0}
IsMessage (websocket_disconnect _) = Unit {0}
IsMessage _ = ⊥

-- The second list, or that list with one more element.
abbrev pub Ends {ℓ} : {A : Type ℓ} → List A → List A → A → Type ℓ
Ends xs ys z = (xs ≡ ys) ⊎ (xs ≡ ys ++ z ∷ [])

module _ {S R W : Type 0} ⦃sender : SendToAsgiApp S⦄ ⦃socket : FrameSocket W⦄
    ⦃ws : WebsocketCrate⦄ where
  -- So far the peer was sent data frames and pongs and the application messages.
  abbrev pub Open : List Frame → List AsgiReceiveEvent → Context S R W → Type 0
  Open w0 d0 ctx =
      (fs : List Frame) × (es : List AsgiReceiveEvent) × All IsOpenFrame fs
      × All IsReceive es
      × (socket.written ctx.websocket ≡ w0 ++ fs)
      × (sender.delivered ctx.send_to_app ≡ d0 ++ es)

  -- And then the peer was sent at most one close frame as a read's own answer.
  abbrev pub Answered : List Frame → List AsgiReceiveEvent → Context S R W → Type 0
  Answered w0 d0 ctx =
      (fs : List Frame) × (es : List AsgiReceiveEvent) × All IsOpenFrame fs
      × All IsReceive es
      × (answer : List Frame) × IsAnswer answer
      × (socket.written ctx.websocket ≡ (w0 ++ fs) ++ answer)
      × (sender.delivered ctx.send_to_app ≡ d0 ++ es)

  -- And then at most one close frame and at most one disconnect, of the same code and reason.
  abbrev pub Shut : List Frame → List AsgiReceiveEvent → Context S R W → Type 0
  Shut w0 d0 ctx =
      (fs : List Frame) × (es : List AsgiReceiveEvent) × All IsOpenFrame fs
      × All IsReceive es
      × (answer : List Frame) × IsAnswer answer
      × (code : ℕ) × (reason : Str) × Ends (socket.written ctx.websocket) ((w0 ++ fs) ++ answer)
          (ws.close_frame code (encode reason))
      × Ends (sender.delivered ctx.send_to_app) (d0 ++ es) (new_websocket_disconnect code reason)

  abbrev pub Told : List Frame → List AsgiReceiveEvent → State → Context S R W → Type 0
  Told w0 d0 closed ctx = Shut w0 d0 ctx
  Told w0 d0 _ ctx = Open w0 d0 ctx

write-Ends :
    {W : Type 0} ⦃socket : FrameSocket W⦄ (w : W) (f : Frame) (ys : List Frame)
    → socket.written w ≡ ys
    → Ends (socket.written (socket.write_frame w f).0) ys f
write-Ends ⦃socket⦄ w f ys e =
    let law = socket.written-write_frame w f in
    elim (Result-cases (socket.write_frame w f).1) [
      | inl (_, o) ↦ inr ((rw o at law) ∙ ap (λ xs. xs ++ f ∷ []) e)
      | inr (_, o) ↦ inl ((rw o at law) ∙ e)
    ]

module _ {W : Type 0} ⦃socket : FrameSocket W⦄ where
  wrote :
      (w : W) (f : Frame) (u : Unit {0})
      → (socket.write_frame w f).1 ≡ ok u
      → socket.written (socket.write_frame w f).0 ≡ socket.written w ++ f ∷ []
  wrote w f u e = rw e at (socket.written-write_frame w f)

  not_wrote :
      (w : W) (f : Frame) (x : WebSocketError)
      → (socket.write_frame w f).1 ≡ err x
      → socket.written (socket.write_frame w f).0 ≡ socket.written w
  not_wrote w f x e = rw e at (socket.written-write_frame w f)

pub send-Ends :
    {S : Type 0} ⦃sender : SendToAsgiApp S⦄ (s : S) (event : AsgiReceiveEvent)
    (ys : List AsgiReceiveEvent)
    → sender.delivered s ≡ ys
    → Ends (sender.delivered (sender.send s event).0) ys event
send-Ends ⦃sender⦄ s event ys e =
    let law = sender.delivered-send s event in
    elim (Result-cases (sender.send s event).1) [
      | inl (_, o) ↦ inr ((rw o at law) ∙ ap (λ xs. xs ++ event ∷ []) e)
      | inr (_, o) ↦ inl ((rw o at law) ∙ e)
    ]

module _ {S R W : Type 0} ⦃sender : SendToAsgiApp S⦄ ⦃socket : FrameSocket W⦄ ⦃ws : WebsocketCrate⦄
    ⦃debug : Debug AsgiSendEvent⦄ where
  pub close-Answered :
      (w0 : List Frame) (d0 : List AsgiReceiveEvent) (code : ℕ) (reason : Str) (ctx : Context S R W)
      → Answered w0 d0 ctx
      → Told w0 d0 (Machine.close code reason ctx).0 (Machine.close code reason ctx).1
  unfolding Machine.close
  close-Answered w0 d0 code reason ctx (fs, es, a, b, answer, i, e, d) = (
    fs,
    es,
    a,
    b,
    answer,
    i,
    code,
    reason,
    write-Ends ctx.websocket _ ((w0 ++ fs) ++ answer) e,
    send-Ends ctx.send_to_app _ (d0 ++ es) d,
  )

  pub close-Shut :
      (w0 : List Frame) (d0 : List AsgiReceiveEvent) (code : ℕ) (reason : Str) (ctx : Context S R W)
      → Open w0 d0 ctx
      → Told w0 d0 (Machine.close code reason ctx).0 (Machine.close code reason ctx).1
  close-Shut w0 d0 code reason ctx (fs, es, a, b, e, d) =
      close-Answered w0 d0 code reason ctx
        (fs, es, a, b, [], tt, e ∙ sym (append-nil (w0 ++ fs)), d)

  -- An error closes the connection, with some code and reason.
  close_on-Shut :
      (w0 : List Frame) (d0 : List AsgiReceiveEvent) (kind : WebSocketErrorKind)
      (ctx : Context S R W)
      → Open w0 d0 ctx
      → Told w0 d0 (close_on kind ctx).0 (close_on kind ctx).1
  unfolding close_on
  close_on-Shut w0 d0 invalid_close_code ctx o = close-Shut w0 d0 _ _ ctx o
  close_on-Shut w0 d0 invalid_close_frame ctx o = close-Shut w0 d0 _ _ ctx o
  close_on-Shut w0 d0 invalid_utf8 ctx o = close-Shut w0 d0 _ _ ctx o
  close_on-Shut w0 d0 connection_closed ctx o = close-Shut w0 d0 _ _ ctx o
  close_on-Shut w0 d0 other ctx o = close-Shut w0 d0 _ _ ctx o

  pub on_error-Shut :
      (w0 : List Frame) (d0 : List AsgiReceiveEvent) (error : ArasError) (ctx : Context S R W)
      → Open w0 d0 ctx
      → Told w0 d0 (on_error error ctx).0 (on_error error ctx).1
  unfolding on_error
  on_error-Shut w0 d0 (websocket_error e) ctx o = close_on-Shut w0 d0 e.kind ctx o
  on_error-Shut w0 d0 _ ctx o = close-Shut w0 d0 _ _ ctx o

  -- Data frames are written one after another until one fails, which closes the connection.
  pub write_frames-Told :
      (w0 : List Frame) (d0 : List AsgiReceiveEvent) (frames : List Frame) (ctx : Context S R W)
      → All IsDataFrame frames
      → Open w0 d0 ctx
      → Told w0 d0 (write_frames frames ctx).0 (write_frames frames ctx).1
  unfolding write_frames
  write_frames-Told w0 d0 [] ctx a o = o
  write_frames-Told w0 d0 (f ∷ frames) ctx (g, a) (fs, es, p, q, e, d) =
      let w = (socket.write_frame ctx.websocket f).0 in
      let ctx' = record ctx { websocket = w } in
      elim (Result-cases (socket.write_frame ctx.websocket f).1) [
        | inl (u, r) ↦
            rw (r, write_frames)
              (write_frames-Told w0 d0 frames ctx' a (
                fs ++ f ∷ [],
                es,
                All-append IsOpenFrame fs (f ∷ []) p (inl g, tt),
                q,
                wrote ctx.websocket f u r ∙ ap (λ xs. xs ++ f ∷ []) e ∙ append_assoc w0 fs _,
                d,
              ))
        | inr (x, r) ↦
            rw (r, write_frames)
              (on_error-Shut w0 d0 (websocket_error x) ctx'
                (fs, es, p, q, not_wrote ctx.websocket f x r ∙ e, d))
      ]

  -- A message of the peer is handed on, and a close frame of the peer closes the connection.
  pub on_frame_received-Told :
      (w0 : List Frame) (d0 : List AsgiReceiveEvent) (event : AsgiReceiveEvent)
      (ctx : Context S R W)
      → IsMessage event
      → Open w0 d0 ctx
      → Told w0 d0 (on_frame_received event ctx).0 (on_frame_received event ctx).1
  unfolding on_frame_received
  on_frame_received-Told w0 d0 (websocket_disconnect m) ctx i o =
      close-Shut w0 d0 m.code m.reason ctx o
  on_frame_received-Told w0 d0 (websocket_receive m) ctx i (fs, es, p, q, e, d) =
      let s = (sender.send ctx.send_to_app (websocket_receive m)).0 in
      let ctx' = record ctx { send_to_app = s } in
      let law = sender.delivered-send ctx.send_to_app (websocket_receive m) in
      elim (Result-cases (sender.send ctx.send_to_app (websocket_receive m)).1) [
        | inl (u, r) ↦
            rw (r, on_frame_received)
              (
                fs,
                es ++ websocket_receive m ∷ [],
                p,
                All-append IsReceive es _ q (tt, tt),
                e,
                (rw r at law) ∙ ap (λ xs. xs ++ websocket_receive m ∷ []) d ∙ append_assoc d0 es _,
              )
        | inr (x, r) ↦
            rw (r, on_frame_received)
              (on_error-Shut w0 d0 (application_result_into x) ctx'
                (fs, es, p, q, e, (rw r at law) ∙ d))
      ]
  on_frame_received-Told w0 d0 _ ctx i o = absurd i
