-- ===== src/Asgi/Events.antt =====
-- asgispec/src/events/: the events that a server and an application exchange. A `u16` is a number
-- below 2 ^ 16, and an event without fields is a record without fields.
use trap.Shared.{ℕ, Bool, Option, none, some, List}
use trap.Text.Utf8.{Str, Bytes}

abbrev pub Headers : Type 0
Headers = List (Bytes × Bytes)

-- events/http.rs

pub record HttpRequestEvent : Type 0 where
  pub body : Bytes
  pub more_body : Bool

pub record HttpResponseStartEvent : Type 0 where
  pub status : ℕ
  pub headers : Headers

pub record HttpResponseBodyEvent : Type 0 where
  pub body : Bytes
  pub more_body : Bool

pub data HttpDisconnectEvent : Type 0 where
  http_disconnect_event : HttpDisconnectEvent

-- events/lifespan.rs

pub data LifespanStartupEvent : Type 0 where
  lifespan_startup_event : LifespanStartupEvent

pub data LifespanStartupCompleteEvent : Type 0 where
  lifespan_startup_complete_event : LifespanStartupCompleteEvent

pub record LifespanStartupFailedEvent : Type 0 where
  pub message : Str

pub data LifespanShutdownEvent : Type 0 where
  lifespan_shutdown_event : LifespanShutdownEvent

pub data LifespanShutdownCompleteEvent : Type 0 where
  lifespan_shutdown_complete_event : LifespanShutdownCompleteEvent

pub record LifespanShutdownFailedEvent : Type 0 where
  pub message : Str

-- events/websocket.rs

pub data WebsocketConnectEvent : Type 0 where
  websocket_connect_event : WebsocketConnectEvent

pub record WebsocketAcceptEvent : Type 0 where
  pub subprotocol : Option Str
  pub headers : Headers

pub record WebsocketReceiveEvent : Type 0 where
  pub bytes : Option Bytes
  pub text : Option Str

pub record WebsocketSendEvent : Type 0 where
  pub bytes : Option Bytes
  pub text : Option Str

pub record WebsocketDisconnectEvent : Type 0 where
  pub code : ℕ
  pub reason : Str

pub record WebsocketCloseEvent : Type 0 where
  pub code : ℕ
  pub reason : Str

-- `code.unwrap_or(1000)`
abbrev pub unwrap_or {ℓ} : {A : Type ℓ} → A → Option A → A
unwrap_or d none = d
unwrap_or d (some a) = a

abbrev pub websocket_close_event : Option ℕ → Str → WebsocketCloseEvent
websocket_close_event code reason = record { code = unwrap_or 1000 code; reason = reason }
