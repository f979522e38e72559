-- ===== src/Python/Scopes.antt =====
-- convert.rs and `PyScope` of wrappers.rs: a scope becomes a Python dictionary. `new_state` makes an
-- object of the shared state, `PyState::into_pyobject`.
use trap.Shared.{ℕ, [], ◌∷◌, map, Result, and_then, ◌>>◌}
use trap.Text.Utf8.{Str, str}
use trap.Asgi.Scope.{
  AsgiScope, HttpScope, WebsocketScope, LifespanScope, Scope, http, lifespan, websocket,
}
use trap.Python.Library.{PyErr, PyCrate}
use trap.Python.Build.{dict, or_none}

module _ {P D : Type 0} (py : PyCrate P D) where
  unfoldable pub asgi_scope_into_py : AsgiScope → Result D PyErr
  asgi_scope_into_py scope = dict py (do
    py.set_item (str "version") (py.new_str scope.version)
    py.set_item (str "spec_version") (py.new_str scope.spec_version))

  -- `PyList::new(py, vec![s.0, s.1])`
  abbrev pub address : Str × ℕ → P
  address s = py.new_list (py.new_str s.0 ∷ py.new_int s.1 ∷ [])

module _ {P D S : Type 0} (py : PyCrate P D) (new_state : S → P) where
  -- The rest of the function, once the dictionary of the ASGI versions is there.
  http_dict : HttpScope S → D → Result D PyErr
  http_dict scope asgi = dict py (do
    py.set_item (str "type") (py.new_str (str "http"))
    py.set_item (str "asgi") (py.of_dict asgi)
    py.set_item (str "http_version") (py.new_str scope.http_version)
    py.set_item (str "method") (py.new_str scope.method)
    py.set_item (str "scheme") (py.new_str scope.scheme)
    py.set_item (str "path") (py.new_str scope.path)
    py.set_item (str "raw_path") (py.new_bytes scope.raw_path)
    py.set_item (str "query_string") (py.new_bytes scope.query_string)
    py.set_item (str "root_path") (py.new_str scope.root_path)
    py.set_item (str "headers") (py.new_pairs scope.headers)
    py.set_item (str "client") (or_none py (address py) scope.client)
    py.set_item (str "server") (or_none py (address py) scope.server)
    py.set_item (str "state") (or_none py new_state scope.state))

  unfoldable pub http_scope_into_py : HttpScope S → Result D PyErr
  unfolding asgi_scope_into_py http_dict
  http_scope_into_py scope = and_then (asgi_scope_into_py py scope.asgi) (http_dict scope)

  lifespan_dict : LifespanScope S → D → Result D PyErr
  lifespan_dict scope asgi = dict py (do
    py.set_item (str "type") (py.new_str (str "lifespan"))
    py.set_item (str "asgi") (py.of_dict asgi)
    py.set_item (str "state") (or_none py new_state scope.state))

  unfoldable pub lifespan_scope_into_py : LifespanScope S → Result D PyErr
  unfolding asgi_scope_into_py lifespan_dict
  lifespan_scope_into_py scope = and_then (asgi_scope_into_py py scope.asgi) (lifespan_dict scope)

  websocket_dict : WebsocketScope S → D → Result D PyErr
  websocket_dict scope asgi = dict py (do
    py.set_item (str "type") (py.new_str (str "websocket"))
    py.set_item (str "asgi") (py.of_dict asgi)
    py.set_item (str "http_version") (py.new_str scope.http_version)
    py.set_item (str "scheme") (py.new_str scope.scheme)
    py.set_item (str "path") (py.new_str scope.path)
    py.set_item (str "raw_path") (py.new_bytes scope.raw_path)
    py.set_item (str "query_string") (py.new_bytes scope.query_string)
    py.set_item (str "root_path") (py.new_str scope.root_path)
    py.set_item (str "headers") (py.new_pairs scope.headers)
    py.set_item (str "client") (or_none py (address py) scope.client)
    py.set_item (str "server") (or_none py (address py) scope.server)
    py.set_item (str "subprotocols") (py.new_list (map py.new_str scope.subprotocols))
    py.set_item (str "state") (or_none py new_state scope.state))

  unfoldable pub websocket_scope_into_py : WebsocketScope S → Result D PyErr
  unfolding asgi_scope_into_py websocket_dict
  websocket_scope_into_py scope = and_then (asgi_scope_into_py py scope.asgi) (websocket_dict scope)

  -- `PyScope::into_pyobject`
  unfoldable pub scope_into_pyobject : Scope S → Result D PyErr
  unfolding http_scope_into_py lifespan_scope_into_py websocket_scope_into_py
  scope_into_pyobject (http scope) = http_scope_into_py scope
  scope_into_pyobject (lifespan scope) = lifespan_scope_into_py scope
  scope_into_pyobject (websocket scope) = websocket_scope_into_py scope
