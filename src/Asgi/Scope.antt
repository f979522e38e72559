-- ===== src/Asgi/Scope.antt =====
-- asgispec/src/scope/ and the `ASGIScope` and `Scope` of asgispec/src/spec.rs. `S` is the state
-- that the application shares between its connections.
use trap.Shared.{ℕ, Bool, true, false, Option, List}
use trap.Text.Utf8.{Str, Bytes, str}
use trap.Asgi.Events.{Headers}

abbrev pub asgi_version : Str
asgi_version = str "3.0"

abbrev pub asgi_spec_version : Str
asgi_spec_version = str "2.5"

pub record AsgiScope : Type 0 where
  pub version : Str
  pub spec_version : Str

-- `ASGIScope::default`
abbrev pub default_asgi_scope : AsgiScope
default_asgi_scope = record { version = asgi_version; spec_version = asgi_spec_version }

pub record HttpScope (S : Type 0) : Type 0 where
  pub asgi : AsgiScope
  pub http_version : Str
  pub method : Str
  pub scheme : Str
  pub path : Str
  pub raw_path : Bytes
  pub query_string : Bytes
  pub root_path : Str
  pub headers : Headers
  pub client : Option (Str × ℕ)
  pub server : Option (Str × ℕ)
  pub state : Option S

pub record WebsocketScope (S : Type 0) : Type 0 where
  pub asgi : AsgiScope
  pub http_version : Str
  pub scheme : Str
  pub path : Str
  pub raw_path : Bytes
  pub query_string : Bytes
  pub root_path : Str
  pub headers : Headers
  pub client : Option (Str × ℕ)
  pub server : Option (Str × ℕ)
  pub subprotocols : List Str
  pub state : Option S

pub record LifespanScope (S : Type 0) : Type 0 where
  pub asgi : AsgiScope
  pub state : Option S

pub data Scope (S : Type 0) : Type 0 where
  http : HttpScope S → Scope S
  lifespan : LifespanScope S → Scope S
  websocket : WebsocketScope S → Scope S

module _ {S : Type 0} where
  unfoldable pub is_websocket : Scope S → Bool
  is_websocket (websocket _) = true
  is_websocket _ = false

  unfoldable pub is_http : Scope S → Bool
  is_http (http _) = true
  is_http _ = false

  unfoldable pub is_lifespan : Scope S → Bool
  is_lifespan (lifespan _) = true
  is_lifespan _ = false
