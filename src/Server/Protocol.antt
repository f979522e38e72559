-- ===== src/Server/Protocol.antt =====
-- service.rs, server.rs and communication.rs: the events that serving a request and running the server
-- send an application and those that it gets, against what ASGI lets it hear under its scope.
use trap.Shared.{ℕ, ◌≡◌, sym, ◌∙◌, subst, ◌⊎◌, inl, inr, some, List, [], ◌++◌, ok}
use trap.Communication.Channel.{Channel}
use trap.Communication.Factory.{Connected}
use trap.Communication.Delivery.{disconnects, Log, Happens}
use trap.Communication.Conserved.{Happens-IsDelivering}
use trap.Text.Utf8.{Str}
use trap.Asgi.Scope.{Scope}
use trap.Asgi.Spec.{AsgiSendEvent, AsgiReceiveEvent}
use trap.Errors.{Debug}
use trap.Communication.Interface.{SendToAsgiApp, ReceiveFromAsgiApp, Link}
use trap.Http.Library.{HttpCrate, ResponseHead, BodyStream}
use trap.Http.Handler.{Order, HttpHandler}
use trap.Http.Handler
use trap.Http.Framing.{HasHonestHints}
use trap.Lifespan.Handler.{LifespanHandler, StartedLifespanHandler, startup, shutdown}
use trap.Websocket.Library.{OpCode, WebsocketCrate, FrameSocket}
use trap.Websocket.Machine.{State, Context, Choice, run_protocol}
use trap.Websocket.Handshake.{WebsocketHandler, Upgrade, accept_connection, connect_response}
use trap.Websocket.Handshake
use trap.Server.Scopes.{Request, ScopeFactory, build_lifespan}
use trap.Server.Service.{Task, by_websocket, by_http, ArasAsgiService, UpgradeCrate, call}
use trap.Server.Serving.{IsServedAs, call-IsServedAs}
use trap.Server.Sessions.{
  IsSession, exchange_lem, greeting, spawned_lem, run_lem, started_lem, stopped_lem, http-IsSession,
  websocket-IsSession,
}

-- What an application has got of the events that were sent to it: they are what ASGI lets it hear under
-- its scope, it has got those up to some point, in order, and after that disconnects only, and these
-- only if there are no more events to get.
abbrev pub HasGot : {T : Type 0} → Scope T → List AsgiReceiveEvent → List AsgiReceiveEvent → Type 0
HasGot scope es app_got =
    IsSession scope es
    × (got : List AsgiReceiveEvent) × (left : List AsgiReceiveEvent) × (n : ℕ) × (es ≡ got ++ left)
    × (app_got ≡ got ++ disconnects n)
    × ((n ≡ 0) ⊎ (left ≡ []))

module _ (S R W A : Type 0) {T : Type 0} ⦃sender : SendToAsgiApp S⦄
    ⦃receiver : ReceiveFromAsgiApp R⦄ ⦃socket : FrameSocket W⦄ ⦃crate : HttpCrate⦄
    ⦃ws : WebsocketCrate⦄ ⦃debug : Debug AsgiSendEvent⦄ ⦃opcodes : Debug OpCode⦄
    ⦃upgrades : UpgradeCrate⦄ where
  -- What an application has been sent over two fresh handles, under its scope: by an exchange, by the
  -- handshake of a connection, by the connection at any point of its loop, by the startup of the
  -- server, and by its startup and shutdown.
  pub data Hears : Scope T → List AsgiReceiveEvent → Type 0 where
    exchanged :
        (s : ArasAsgiService A T) (request : Request) {task : Task A T} {limit : ℕ}
        → call s request ≡ by_http task limit
        → (order : Order) (l : Link S R) (stream : BodyStream) → HasHonestHints stream
        → sender.delivered l.send_to ≡ []
        → Hears task.scope
            (sender.delivered (Handler.handle order (record { timeout = limit }) l stream).0)
    greeted :
        (s : ArasAsgiService A T) (request : Request) {task : Task A T} {limit size : ℕ}
        {client : Str}
        → call s request ≡ by_websocket task limit size client
        → (l : Link S R) → sender.delivered l.send_to ≡ []
        → Hears task.scope (
            sender.delivered
              (accept_connection
                (record { timeout = limit; max_frame_size = size; client = client })
                l).0.send_to)
    connected :
        (s : ArasAsgiService A T) (request : Request) {task : Task A T} {limit size : ℕ}
        {client : Str}
        → call s request ≡ by_websocket task limit size client
        → (l l' : Link S R) (head : ResponseHead) (w : W) (cs : List Choice) (st : State)
          (ctx : Context S R W)
        → sender.delivered l.send_to ≡ []
        → (Handshake.handle
            (record { timeout = limit; max_frame_size = size; client = client })
            l
            (ok (head, ok w))).spawned
          ≡ some (l', ok w)
        → run_protocol size cs (ok w) l'.send_to l'.receive_from ≡ some (st, some ctx)
        → Hears task.scope (sender.delivered ctx.send_to_app)
    started :
        (f : ScopeFactory T) (h : LifespanHandler) (l : Link S R) (s : StartedLifespanHandler S R)
        → sender.delivered l.send_to ≡ []
        → startup h l ≡ ok s
        → Hears (build_lifespan f) (sender.delivered s.link.send_to)
    stopped :
        (f : ScopeFactory T) (h : LifespanHandler) (l : Link S R) (s : StartedLifespanHandler S R)
        → sender.delivered l.send_to ≡ []
        → startup h l ≡ ok s
        → Hears (build_lifespan f) (sender.delivered (shutdown s).0.link.send_to)

module _ {S R W A T : Type 0} ⦃sender : SendToAsgiApp S⦄ ⦃receiver : ReceiveFromAsgiApp R⦄
    ⦃socket : FrameSocket W⦄ ⦃crate : HttpCrate⦄ ⦃ws : WebsocketCrate⦄ ⦃debug : Debug AsgiSendEvent⦄
    ⦃opcodes : Debug OpCode⦄ ⦃upgrades : UpgradeCrate⦄ where
  Sent-IsSession :
      (scope : Scope T) (es : List AsgiReceiveEvent) → Hears S R W A scope es → IsSession scope es
  unfolding build_lifespan
  Sent-IsSession _ _ (exchanged s request c order l stream honest e) =
      let p =
        subst (IsServedAs (upgrades.is_upgrade_request request)) c (call-IsServedAs s request) in
      http-IsSession _ _ p.1 (exchange_lem order _ l stream honest e)
  Sent-IsSession _ _ (greeted s request c l e) =
      let p =
        subst (IsServedAs (upgrades.is_upgrade_request request)) c (call-IsServedAs s request) in
      websocket-IsSession _ _ p.1 (greeting _ l e)
  Sent-IsSession _ _ (connected s request c l l' head w cs st ctx e sp r) =
      let p =
        subst (IsServedAs (upgrades.is_upgrade_request request)) c (call-IsServedAs s request) in
      websocket-IsSession _ _ p.1 (run_lem _ cs w l' st ctx (spawned_lem _ l l' _ _ e sp) r)
  Sent-IsSession _ _ (started f h l s e u) = started_lem h l s e u
  Sent-IsSession _ _ (stopped f h l s e u) = stopped_lem h l s e u

  -- Whatever serves an application over fresh handles, what the server sends it is what ASGI lets it
  -- hear under the scope that it was given. By an HTTP exchange, whose size hints keep their contract:
  -- parts of the request or the whole of it, and then at most one disconnect. By a WebSocket handshake
  -- and connection: nothing, or the connect event, then messages, then at most one disconnect. By the
  -- server's lifespan: nothing, or the startup event and then at most the shutdown event. Over a channel
  -- on which these are what the server has sent, the application's calls to receive return them up to
  -- some point, in order, and beyond what ASGI lets it hear only `http.disconnect`, under any scope and
  -- any number of times, and this only when it has got all of the events.
  pub Hears-IsSession :
      {P Q : Type 0} ⦃app : Channel AsgiReceiveEvent P⦄ ⦃server : Channel AsgiSendEvent Q⦄
      (scope : Scope T) (es : List AsgiReceiveEvent) (size : ℕ) (c : Connected P Q) (l : Log)
      → Hears S R W A scope es
      → Happens size c l
      → l.server_sent ≡ es
      → HasGot scope es l.app_got
  Hears-IsSession ⦃app = app⦄ scope es size c l h happens e =
      let v = Happens-IsDelivering size happens in
      (
        Sent-IsSession scope es h,
        v.got,
        app.queue c.to_app,
        v.extra,
        sym e ∙ v.to_app,
        v.heard,
        elim v.at_end [ inl z ↦ inl z | inr (_, n) ↦ inr n ],
      )
