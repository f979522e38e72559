-- ===== src/Server/Accept.antt =====
-- The accept loop of `run_server` of aras/src/server.rs: which connections it spawns, and what serves
-- their requests. hyper's connection is known by the settings that the loop gives it.
use trap.Shared.{
  ℕ, ◌≡◌, refl, Bool, Option, none, some, List, [], ◌∷◌, map, All, Bool-cases, inl, inr, Result, ok,
  err,
}
use trap.Text.Utf8.{Str}
use trap.Asgi.Scope.{Scope, http, websocket, lifespan}
use trap.Server.Scopes.{new_connection, Request, ScopeFactory, build_http, build_websocket}
use trap.Server.Config.{IpAddr, ArasServer}
use trap.Communication.Factory.{CommunicationFactory}
use trap.Server.Run.{Layer, stack}
use trap.Server.Service.{
  Served, by_websocket, by_http, ArasAsgiService, new_from_factories, Task, UpgradeCrate, call,
}
use trap.Server.Serving.{IsServedAs, call-IsServedAs}

-- A spawned connection: the layers around its service, and hyper's settings.
pub record Connection (A S : Type 0) : Type 0 where
  pub layers : List Layer
  pub service : ArasAsgiService A S
  pub keep_alive : Bool
  pub auto_date_header : Bool

-- The factory that `ASGIServer::run` makes for an application.
unfoldable pub communication_factory_of : {A : Type 0} → ArasServer → A → CommunicationFactory A
communication_factory_of server application = record {
  application = application;
  backpressure_size = server.backpressure_size;
}

module _ {A S : Type 0} (to_text : IpAddr → Str) (server : ArasServer)
    (scope_factory : ScopeFactory S) (communication_factory : CommunicationFactory A) where
  -- One round, for a client that is given by the text of its IP and its port. `to_text` is the `Display`
  -- of an address.
  unfoldable pub connect : Str × ℕ → Connection A S
  unfolding new_connection stack new_from_factories
  connect client = record {
    layers = stack server;
    service =
        new_from_factories scope_factory communication_factory
          (new_connection client (to_text server.addr, server.port)) server.backpressure_timeout
          server.max_ws_frame_size;
    keep_alive = server.keep_alive;
    auto_date_header = server.auto_date_header;
  }

  -- `loop`, over the outcomes of `listener.accept()`; when they run out it is still waiting.
  unfoldable pub accept_loop : {E : Type 0} → List (Result (Str × ℕ) E) → List (Connection A S)
  unfolding connect
  accept_loop [] = []
  accept_loop (ok client ∷ rest) = connect client ∷ accept_loop rest
  accept_loop (err e ∷ rest) = accept_loop rest

-- The clients that have connected.
abbrev pub connected : {A E : Type 0} → List (Result A E) → List A
connected [] = []
connected (ok a ∷ rest) = a ∷ connected rest
connected (err e ∷ rest) = connected rest

abbrev pub task_of : {A S : Type 0} → Served A S → Task A S
task_of (by_websocket task limit size client) = task
task_of (by_http task limit) = task

abbrev pub scope_of : {A S : Type 0} → Served A S → Scope S
scope_of served = (task_of served).scope

abbrev pub client_of : {S : Type 0} → Scope S → Option (Str × ℕ)
client_of (http s) = s.client
client_of (lifespan s) = none
client_of (websocket s) = s.client

abbrev pub server_of : {S : Type 0} → Scope S → Option (Str × ℕ)
server_of (http s) = s.server
server_of (lifespan s) = none
server_of (websocket s) = s.server

abbrev pub state_of : {S : Type 0} → Scope S → Option S
state_of (http s) = s.state
state_of (lifespan s) = s.state
state_of (websocket s) = s.state

abbrev pub timeout_of : {A S : Type 0} → Served A S → ℕ
timeout_of (by_websocket task limit size client) = limit
timeout_of (by_http task limit) = limit

module _ {A S : Type 0} ⦃crate : UpgradeCrate⦄ (to_text : IpAddr → Str) (server : ArasServer)
    (scope_factory : ScopeFactory S) (application : A) (request : Request) where
  abbrev connection_of : Str × ℕ → Connection A S
  connection_of = connect to_text server scope_factory (communication_factory_of server application)

  -- What serves the request on a connection.
  abbrev pub Serves : Connection A S → Type 0
  Serves c =
      let served = call c.service request in
      IsServedAs (crate.is_upgrade_request request) served
      × ((task_of served).application ≡ application)
      × ((task_of served).channel_size ≡ server.backpressure_size)
      × (server_of (scope_of served) ≡ some (to_text server.addr, server.port))
      × (state_of (scope_of served) ≡ some scope_factory.state)
      × (timeout_of served ≡ server.backpressure_timeout)

  call_client :
      (s : ArasAsgiService A S)
      → client_of (scope_of (call s request))
        ≡ some (s.connection.client_ip, s.connection.client_port)
  unfolding call build_http build_websocket
  call_client s = elim (Bool-cases (crate.is_upgrade_request request)) [
    | inl e ↦ rw (e, call) refl
    | inr e ↦ rw (e, call) refl
  ]

  connect-Serves : (client : Str × ℕ) → Serves (connection_of client)
  unfolding call build_http build_websocket connect new_connection new_from_factories
      communication_factory_of
  connect-Serves client =
      let k = call-IsServedAs (connection_of client).service request in
      elim (Bool-cases (crate.is_upgrade_request request)) [
        | inl e ↦ (
          k,
          rw (e, call) refl,
          rw (e, call) refl,
          rw (e, call) refl,
          rw (e, call) refl,
          rw (e, call) refl,
        )
        | inr e ↦ (
          k,
          rw (e, call) refl,
          rw (e, call) refl,
          rw (e, call) refl,
          rw (e, call) refl,
          rw (e, call) refl,
        )
      ]

  -- Whatever the outcomes of accepting, failures among them: the clients that the applications are told
  -- of, on the connections that the loop spawns, are the clients that have connected, in order. On each
  -- of them a request goes to the WebSocket handler if it asks for an upgrade and to the HTTP handler if
  -- not. What serves it is a task of the server's application over channels of the configured
  -- backpressure size, with a scope of the same protocol, the server's address and state, and the
  -- configured timeout.
  pub accept_loop-Serves :
      {E : Type 0} (accepts : List (Result (Str × ℕ) E))
      → let connections =
          accept_loop to_text server scope_factory
            (communication_factory_of server application)
            accepts in
        (map (λ c. client_of (scope_of (call c.service request))) connections
          ≡ map some (connected accepts))
        × All Serves connections
  unfolding accept_loop connect new_connection new_from_factories
  accept_loop-Serves [] = (refl, tt)
  accept_loop-Serves (ok client ∷ rest) =
      let (e, a) = accept_loop-Serves rest in
      (rw (call_client (connection_of client).service, e) refl, (connect-Serves client, a))
  accept_loop-Serves (err x ∷ rest) = accept_loop-Serves rest
