-- ===== src/Server/Scopes.antt =====
-- aras/src/scope.rs and `ConnectionInfo` of types.rs: the scope that a request is served in. A
-- request is seen through what the factory reads of it.
use trap.Shared.{
  ℕ, ◌+◌, Bool, true, false, Option, some, List, [], ◌∷◌, ◌++◌, ◌==◌, leb, if◌then◌else◌, list_eq,
}
use trap.Text.Utf8.{Str, Bytes, str, encode, from_utf8_lossy}
use trap.Asgi.Events.{Headers, unwrap_or}
use trap.Asgi.Scope.{Scope, http, websocket, lifespan, default_asgi_scope}

pub record ConnectionInfo : Type 0 where
  pub client_ip : Str
  pub server_ip : Str
  pub client_port : ℕ
  pub server_port : ℕ

-- `ConnectionInfo::new`, for socket addresses given by the text of their IP and their port
unfoldable pub new_connection : Str × ℕ → Str × ℕ → ConnectionInfo
new_connection client server = record {
  client_ip = client.0;
  server_ip = server.0;
  client_port = client.1;
  server_port = server.1;
}

-- What the factory reads of a request: the version as `Debug` prints it, the method, the path, the
-- query if the URI has one, and the header map in the order of its iteration.
pub record Request : Type 0 where
  pub version : Str
  pub method : Str
  pub path : Str
  pub query : Option Str
  pub headers : List (Str × Bytes)

-- `ScopeFactory<S>`
pub record ScopeFactory (S : Type 0) : Type 0 where
  pub state : S

unfoldable pub parse_headers : List (Str × Bytes) → Headers
parse_headers [] = []
parse_headers ((name, value) ∷ rest) = (encode name, value) ∷ parse_headers rest

-- `char::is_whitespace`
abbrev pub is_whitespace : ℕ → Bool
is_whitespace c =
    if leb 9 c
    then if leb c 13
      then true
      else if c == 32
      then true
      else if c == 133
      then true
      else if c == 160
      then true
      else if c == 5760
      then true
      else if c == 8232
      then true
      else if c == 8233
      then true
      else if c == 8239
      then true
      else if c == 8287
      then true
      else if c == 12288
      then true
      else if leb 8192 c
      then leb c 8202
      else false
    else false

-- `txt.retain(|c| !c.is_whitespace())`
unfoldable pub retain : Str → Str
retain [] = []
retain (c ∷ s) = if is_whitespace c then retain s else c ∷ retain s

abbrev pub push_front : ℕ → List Str → List Str
push_front c [] = (c ∷ []) ∷ []
push_front c (s ∷ rest) = (c ∷ s) ∷ rest

-- `s.split(",")`: one more piece than there are commas.
unfoldable pub split : Str → List Str
split [] = [] ∷ []
split (c ∷ s) = if c == 44 then [] ∷ split s else push_front c (split s)

-- `to_lowercase`, on a header name, which is ASCII
abbrev pub lower : Str → Str
lower [] = []
lower (c ∷ s) = (if leb 65 c then if leb c 90 then c + 32 else c else c) ∷ lower s

unfoldable pub subprotocols_of : List (Str × Bytes) → List Str
unfolding retain split
subprotocols_of [] = []
subprotocols_of ((name, value) ∷ rest) =
    if list_eq (lower name) (str "sec-websocket-protocol")
    then split (retain (from_utf8_lossy value)) ++ subprotocols_of rest
    else subprotocols_of rest

module _ {S : Type 0} where
  unfoldable pub build_http : ScopeFactory S → ConnectionInfo → Request → Scope S
  unfolding parse_headers
  build_http f conn request = http (record {
    asgi = default_asgi_scope;
    http_version = request.version;
    method = request.method;
    scheme = str "http";
    path = request.path;
    raw_path = encode request.path;
    query_string = encode (unwrap_or [] request.query);
    root_path = str "";
    headers = parse_headers request.headers;
    client = some (conn.client_ip, conn.client_port);
    server = some (conn.server_ip, conn.server_port);
    state = some f.state;
  })

  unfoldable pub build_websocket : ScopeFactory S → ConnectionInfo → Request → Scope S
  unfolding parse_headers subprotocols_of
  build_websocket f conn request = websocket (record {
    asgi = default_asgi_scope;
    http_version = request.version;
    scheme = str "http";
    path = request.path;
    raw_path = encode request.path;
    query_string = encode (unwrap_or [] request.query);
    root_path = str "";
    headers = parse_headers request.headers;
    client = some (conn.client_ip, conn.client_port);
    server = some (conn.server_ip, conn.server_port);
    subprotocols = subprotocols_of request.headers;
    state = some f.state;
  })

  unfoldable pub build_lifespan : ScopeFactory S → Scope S
  build_lifespan f = lifespan (record { asgi = default_asgi_scope; state = some f.state })
