-- ===== src/Server/Sessions.antt =====
-- What ASGI lets an application hear under its scope, and what each of the three protocols hands it
-- (http.rs, websocket.rs and lifespan.rs).
use trap.Shared.{
  ℕ, ◌≡◌, ap, ◌∙◌, ◌⊎◌, inl, inr, Option, none, some, List, [], ◌∷◌, ◌++◌, All, Bool, true, ok, err,
  Result, Result-cases, arith, Bool-cases,
}
use trap.Text.Utf8.{Str}
use trap.Asgi.Scope.{Scope, http, websocket, lifespan, is_http, is_websocket}
use trap.Asgi.Spec.{
  AsgiSendEvent, AsgiReceiveEvent, new_http_disconnect, new_lifespan_startup, new_lifespan_shutdown,
  new_websocket_connect, new_websocket_disconnect,
}
use trap.Errors.{WebSocketError, Debug}
use trap.Communication.Interface.{
  SendToAsgiApp, ReceiveFromAsgiApp, Link, CommunicationResult, delivered_after,
}
use trap.Http.Library.{HttpCrate, BodyStream}
use trap.Http.Handler.{Order, HttpHandler}
use trap.Http.Handler
use trap.Http.Framing.{HasHonestHints, Sends, IsPartial, IsWhole}
use trap.Http.Handling.{handle-Sends}
use trap.Lifespan.Handler.{LifespanHandler, StartedLifespanHandler, startup, shutdown}
use trap.Lifespan.Answers.{startup_enabled_iff}
use trap.Lifespan.Events.{delivered-startup, shutdown_disabled}
use trap.Websocket.Library.{OpCode, Frame, WebsocketCrate, FrameSocket}
use trap.Websocket.Machine.{
  State, starting, running, closed, Context, Choice, run_loop, run_protocol,
}
use trap.Websocket.Handshake.{WebsocketHandler, Upgrade, accept_connection, connect_response}
use trap.Websocket.Handshake
use trap.Websocket.Opening.{handle_spawns}
use trap.Websocket.Trace.{IsReceive, Ends, send-Ends, Told}
use trap.Websocket.Loop.{run_loop-Told}

-- Under a scope of HTTP: parts of the request, or the whole of it, then at most one disconnect.
abbrev pub IsExchange : List AsgiReceiveEvent → Type 0
IsExchange es =
    (rs : List AsgiReceiveEvent) × (IsPartial rs ⊎ IsWhole rs) × Ends es rs new_http_disconnect

-- Under a scope of WebSocket: nothing, or the connect event, then messages, then at most one disconnect.
abbrev pub IsConversation : List AsgiReceiveEvent → Type 0
IsConversation es =
    (es ≡ [])
    ⊎ ((rs : List AsgiReceiveEvent) × All IsReceive rs
        × (code : ℕ) × (reason : Str) × Ends es (new_websocket_connect ∷ rs)
            (new_websocket_disconnect code reason))

-- Under the scope of the lifespan: nothing, or the startup event and then at most the shutdown event.
abbrev pub IsLifespan : List AsgiReceiveEvent → Type 0
IsLifespan es = (es ≡ []) ⊎ Ends es (new_lifespan_startup ∷ []) new_lifespan_shutdown

-- What an application may hear under a scope.
abbrev pub IsSession : {T : Type 0} → Scope T → List AsgiReceiveEvent → Type 0
IsSession (http _) es = IsExchange es
IsSession (websocket _) es = IsConversation es
IsSession (lifespan _) es = IsLifespan es

-- What one send more may leave.
after-Ends :
    (es xs : List AsgiReceiveEvent) (event : AsgiReceiveEvent) (r : CommunicationResult (Unit {0}))
    → es ≡ delivered_after xs event r
    → Ends es xs event
after-Ends es xs event (ok _) e = inr e
after-Ends es xs event (err _) e = inl e

shut :
    (xs d0 es : List AsgiReceiveEvent) (event : AsgiReceiveEvent)
    → d0 ≡ new_websocket_connect ∷ []
    → Ends xs (d0 ++ es) event
    → Ends xs (new_websocket_connect ∷ es) event
shut xs d0 es event e h = rw e at h

module _ {S : Type 0} ⦃sender : SendToAsgiApp S⦄ where
  Sends-IsPartial :
      (stream : BodyStream) (s s' : S) (done : Bool)
      → sender.delivered s ≡ []
      → Sends stream s s' done
      → IsPartial (sender.delivered s') ⊎ IsWhole (sender.delivered s')
  Sends-IsPartial stream s s' done e (es, d, inl ((p, _, _), _)) = inl (rw (d, e) p)
  Sends-IsPartial stream s s' done e (es, d, inr (p, _)) = inr (rw (d, e) p)

module _ {S R : Type 0} ⦃sender : SendToAsgiApp S⦄ ⦃receiver : ReceiveFromAsgiApp R⦄
    ⦃crate : HttpCrate⦄ ⦃debug : Debug AsgiSendEvent⦄ where
  pub exchange_lem :
      (order : Order) (h : HttpHandler) (l : Link S R) (stream : BodyStream)
      → HasHonestHints stream
      → sender.delivered l.send_to ≡ []
      → IsExchange (sender.delivered (Handler.handle order h l stream).0)
  exchange_lem order h l stream honest e =
      let (s, sends, d) = handle-Sends order h l stream honest in
      (
        sender.delivered s,
        Sends-IsPartial stream l.send_to s _ e sends,
        after-Ends _ (sender.delivered s) new_http_disconnect (sender.send s new_http_disconnect).1
            d,
      )

  -- The handshake hands over the connect event, if the application takes it.
  greeted_lem :
      (h : WebsocketHandler) (l : Link S R)
      → (accept_connection h l).0.send_to ≡ (sender.send l.send_to new_websocket_connect).0
  unfolding accept_connection connect_response
  greeted_lem h l = elim (Result-cases (sender.send l.send_to new_websocket_connect).1) [
    | inl (u, e) ↦ ground arith
    | inr (x, e) ↦ ground arith
  ]

  pub greeting :
      (h : WebsocketHandler) (l : Link S R)
      → sender.delivered l.send_to ≡ []
      → IsConversation (sender.delivered (accept_connection h l).0.send_to)
  greeting h l e = rw (greeted_lem h l) (elim (send-Ends l.send_to new_websocket_connect [] e) [
    | inl d ↦ inl d
    | inr d ↦ inr ([], tt, 0, [], inl d)
  ])

  -- A task that the handshake spawns has an application that has been handed the connect event.
  pub spawned_lem :
      {W : Type 0} (h : WebsocketHandler) (l l' : Link S R) (upgraded : Upgrade W)
      (connection : Result W WebSocketError)
      → sender.delivered l.send_to ≡ []
      → (Handshake.handle h l upgraded).spawned ≡ some (l', connection)
      → sender.delivered l'.send_to ≡ new_websocket_connect ∷ []
  spawned_lem h l l' upgraded connection e sp =
      let ((_, (t, _)), _, q) = handle_spawns h l upgraded l' connection sp in
      ap (λ k. sender.delivered k.send_to) q
      ∙ (rw t at (sender.delivered-send l.send_to new_websocket_connect))
      ∙ ap (λ xs. xs ++ new_websocket_connect ∷ []) e

module _ {S R : Type 0} ⦃sender : SendToAsgiApp S⦄ ⦃receiver : ReceiveFromAsgiApp R⦄
    ⦃debug : Debug AsgiSendEvent⦄ where
  startup_sends :
      (h : LifespanHandler) (l : Link S R) (s : StartedLifespanHandler S R)
      → startup h l ≡ ok s
      → s.link.send_to ≡ (sender.send l.send_to new_lifespan_startup).0
  unfolding startup
  startup_sends h l s e = ground arith

  pub started_lem :
      (h : LifespanHandler) (l : Link S R) (s : StartedLifespanHandler S R)
      → sender.delivered l.send_to ≡ []
      → startup h l ≡ ok s
      → IsLifespan (sender.delivered s.link.send_to)
  started_lem h l s d e =
      rw (startup_sends h l s e) (elim (send-Ends l.send_to new_lifespan_startup [] d) [
        | inl n ↦ inl n
        | inr n ↦ inr (inl n)
      ])

  shutdown_sends :
      (s : StartedLifespanHandler S R)
      → s.enabled ≡ true
      → (shutdown s).0.link.send_to ≡ (sender.send s.link.send_to new_lifespan_shutdown).0
  unfolding shutdown
  shutdown_sends s on = ground arith

  -- The shutdown event goes only to an application that has taken the startup event.
  pub stopped_lem :
      (h : LifespanHandler) (l : Link S R) (s : StartedLifespanHandler S R)
      → sender.delivered l.send_to ≡ []
      → startup h l ≡ ok s
      → IsLifespan (sender.delivered (shutdown s).0.link.send_to)
  stopped_lem h l s d e = elim (Bool-cases s.enabled) [
    | inl on ↦
        let t = ((startup_enabled_iff h l).0 (s, e, on)).0 in
        let taken = delivered-startup h l s e t ∙ ap (λ xs. xs ++ new_lifespan_startup ∷ []) d in
        rw (shutdown_sends s on)
          (inr (send-Ends s.link.send_to new_lifespan_shutdown (new_lifespan_startup ∷ []) taken))
    | inr off ↦ rw (shutdown_disabled s off) (started_lem h l s d e)
  ]

pub http-IsSession :
    {T : Type 0} (scope : Scope T) (es : List AsgiReceiveEvent)
    → is_http scope ≡ true
    → IsExchange es
    → IsSession scope es
unfolding is_http
http-IsSession (http _) es e x = x
http-IsSession (websocket _) es e x = absurd (cc e)
http-IsSession (lifespan _) es e x = absurd (cc e)

pub websocket-IsSession :
    {T : Type 0} (scope : Scope T) (es : List AsgiReceiveEvent)
    → is_websocket scope ≡ true
    → IsConversation es
    → IsSession scope es
unfolding is_websocket
websocket-IsSession (websocket _) es e x = x
websocket-IsSession (http _) es e x = absurd (cc e)
websocket-IsSession (lifespan _) es e x = absurd (cc e)

module _ {S R W : Type 0} ⦃sender : SendToAsgiApp S⦄ ⦃receiver : ReceiveFromAsgiApp R⦄
    ⦃socket : FrameSocket W⦄ ⦃crate : HttpCrate⦄ ⦃ws : WebsocketCrate⦄ ⦃debug : Debug AsgiSendEvent⦄
    ⦃opcodes : Debug OpCode⦄ where
  ran :
      (o : Option (State × Context S R W)) (st : State) (ctx : Context S R W)
      → ◌≡◌ {A = Option (State × Option (Context S R W))}
          (elim o [ none ↦ none | some (state, c) ↦ some (state, some c) ])
          (some (st, some ctx))
      → o ≡ some (st, ctx)
  ran none st ctx e = absurd (cc e)
  ran (some (s, c)) st ctx e = cc e

  conversation :
      (st : State) (d0 : List AsgiReceiveEvent) (w0 : List Frame) (ctx : Context S R W)
      → d0 ≡ new_websocket_connect ∷ []
      → Told w0 d0 st ctx
      → IsConversation (sender.delivered ctx.send_to_app)
  conversation closed d0 w0 ctx e (fs, es, p, q, answer, i, code, reason, _, d) =
      inr (es, q, code, reason, shut _ d0 es _ e d)
  conversation starting d0 w0 ctx e (fs, es, p, q, v, d) =
      inr (es, q, 0, [], inl (d ∙ ap (λ x. x ++ es) e))
  conversation running d0 w0 ctx e (fs, es, p, q, v, d) =
      inr (es, q, 0, [], inl (d ∙ ap (λ x. x ++ es) e))

  -- The loop of a connection whose application has been handed the connect event.
  pub run_lem :
      (size : ℕ) (cs : List Choice) (w : W) (l : Link S R) (st : State) (ctx : Context S R W)
      → sender.delivered l.send_to ≡ new_websocket_connect ∷ []
      → run_protocol size cs (ok w) l.send_to l.receive_from ≡ some (st, some ctx)
      → IsConversation (sender.delivered ctx.send_to_app)
  unfolding run_protocol
  run_lem size cs w l st ctx d e =
      let before : Context S R W = record {
        frame_builder = record { max_frame_size = size };
        send_to_app = l.send_to;
        receive_from_app = l.receive_from;
        websocket = w;
      } in
      conversation st (sender.delivered l.send_to) (socket.written w) ctx d
        (run_loop-Told cs before ctx st (ran (run_loop cs starting before) st ctx e))
