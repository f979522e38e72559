-- ===== src/Python/Handed.antt =====
-- convert.rs: what stands in the dictionaries that a Python application is handed.
use trap.Shared.{◌≡◌, refl, true, List, [], ◌∷◌, map, ok}
use trap.Text.Utf8.{Str, str}
use trap.Asgi.Spec.{
  AsgiReceiveEvent, startup, shutdown, http_request, http_disconnect, websocket_connect,
  websocket_disconnect, websocket_receive, receive_variant_str,
}
use trap.Asgi.Scope.{AsgiScope, Scope, http, lifespan, websocket}
use trap.Python.Library.{PyCrate}
use trap.Python.Build.{
  or_none, into_pyobject, http_request_event_into_py, websocket_receive_into_py,
  websocket_disconnect_into_py, http_disconnect_event_into_py, lifespan_startup_into_py,
  lifespan_shutdown_into_py, websocket_connect_into_py,
}
use trap.Python.Scopes.{
  address, asgi_scope_into_py, http_scope_into_py, lifespan_scope_into_py, websocket_scope_into_py,
  scope_into_pyobject,
}
use trap.Python.Dictionaries.{puts, HasAll, set_then, set_last, distinct, puts-HasAll}

module _ {P D : Type 0} (py : PyCrate P D) where
  -- The fields of an event, beside its type.
  abbrev pub fields : AsgiReceiveEvent → List (Str × P)
  fields (http_request e) =
      (str "body", py.new_bytes e.body) ∷ (str "more_body", py.new_bool e.more_body) ∷ []
  fields (websocket_receive e) =
      (str "bytes", or_none py py.new_bytes e.bytes)
      ∷ (str "text", or_none py py.new_str e.text)
      ∷ []
  fields (websocket_disconnect e) =
      (str "code", py.new_int e.code) ∷ (str "reason", py.new_str e.reason) ∷ []
  fields (startup _) = []
  fields (shutdown _) = []
  fields (http_disconnect _) = []
  fields (websocket_connect _) = []

  abbrev pub entries : AsgiReceiveEvent → List (Str × P)
  entries e = (str "type", py.new_str (receive_variant_str e)) ∷ fields e

  built : (e : AsgiReceiveEvent) → into_pyobject py e ≡ ok (puts py (entries e) py.new_dict)
  unfolding into_pyobject receive_variant_str http_request_event_into_py websocket_receive_into_py
      websocket_disconnect_into_py http_disconnect_event_into_py lifespan_startup_into_py
      lifespan_shutdown_into_py websocket_connect_into_py
  built (startup e) = set_last py _ _ _
  built (shutdown e) = set_last py _ _ _
  built (http_disconnect e) = set_last py _ _ _
  built (websocket_connect e) = set_last py _ _ _
  built (http_request e) = simp (set_then py, set_last py)
  built (websocket_receive e) = simp (set_then py, set_last py)
  built (websocket_disconnect e) = simp (set_then py, set_last py)

  entries-distinct : (e : AsgiReceiveEvent) → distinct (entries e) ≡ true
  entries-distinct (startup e) = refl
  entries-distinct (shutdown e) = refl
  entries-distinct (http_disconnect e) = refl
  entries-distinct (websocket_connect e) = refl
  entries-distinct (http_request e) = refl
  entries-distinct (websocket_receive e) = refl
  entries-distinct (websocket_disconnect e) = refl

  -- Every event becomes a dictionary, without an error, whose type is the name that asgispec gives to the
  -- event and which has each field of the event under the field's name.
  pub into_pyobject_total :
      (e : AsgiReceiveEvent) → (d : D) × (into_pyobject py e ≡ ok d) × HasAll py d (entries e)
  into_pyobject_total e = (_, built e, puts-HasAll py (entries e) py.new_dict (entries-distinct e))

  abbrev pub asgi_entries : AsgiScope → List (Str × P)
  asgi_entries a =
      (str "version", py.new_str a.version) ∷ (str "spec_version", py.new_str a.spec_version) ∷ []

module _ {P D S : Type 0} (py : PyCrate P D) (new_state : S → P) where
  abbrev pub asgi_of : Scope S → AsgiScope
  asgi_of (http s) = s.asgi
  asgi_of (lifespan s) = s.asgi
  asgi_of (websocket s) = s.asgi

  -- The entries of a scope that the ASGI specification names, given the dictionary of the versions.
  abbrev pub scope_entries : D → Scope S → List (Str × P)
  scope_entries asgi (lifespan s) =
      (str "type", py.new_str (str "lifespan"))
      ∷ (str "asgi", py.of_dict asgi)
      ∷ (str "state", or_none py new_state s.state)
      ∷ []
  scope_entries asgi (http s) =
      (str "type", py.new_str (str "http"))
      ∷ (str "asgi", py.of_dict asgi)
      ∷ (str "http_version", py.new_str s.http_version)
      ∷ (str "method", py.new_str s.method)
      ∷ (str "scheme", py.new_str s.scheme)
      ∷ (str "path", py.new_str s.path)
      ∷ (str "raw_path", py.new_bytes s.raw_path)
      ∷ (str "query_string", py.new_bytes s.query_string)
      ∷ (str "root_path", py.new_str s.root_path)
      ∷ (str "headers", py.new_pairs s.headers)
      ∷ (str "client", or_none py (address py) s.client)
      ∷ (str "server", or_none py (address py) s.server)
      ∷ (str "state", or_none py new_state s.state)
      ∷ []
  scope_entries asgi (websocket s) =
      (str "type", py.new_str (str "websocket"))
      ∷ (str "asgi", py.of_dict asgi)
      ∷ (str "http_version", py.new_str s.http_version)
      ∷ (str "scheme", py.new_str s.scheme)
      ∷ (str "path", py.new_str s.path)
      ∷ (str "raw_path", py.new_bytes s.raw_path)
      ∷ (str "query_string", py.new_bytes s.query_string)
      ∷ (str "root_path", py.new_str s.root_path)
      ∷ (str "headers", py.new_pairs s.headers)
      ∷ (str "client", or_none py (address py) s.client)
      ∷ (str "server", or_none py (address py) s.server)
      ∷ (str "subprotocols", py.new_list (map py.new_str s.subprotocols))
      ∷ (str "state", or_none py new_state s.state)
      ∷ []

  asgi_built :
      (a : AsgiScope) → asgi_scope_into_py py a ≡ ok (puts py (asgi_entries py a) py.new_dict)
  unfolding asgi_scope_into_py
  asgi_built a = simp (set_then py, set_last py)

  abbrev asgi_dict : Scope S → D
  asgi_dict s = puts py (asgi_entries py (asgi_of s)) py.new_dict

  scope_built :
      (s : Scope S)
      → scope_into_pyobject py new_state s
        ≡ ok (puts py (scope_entries (asgi_dict s) s) py.new_dict)
  unfolding scope_into_pyobject http_scope_into_py lifespan_scope_into_py websocket_scope_into_py
  scope_built (http s) = rw (asgi_built s.asgi) (simp (set_then py, set_last py))
  scope_built (lifespan s) = rw (asgi_built s.asgi) (simp (set_then py, set_last py))
  scope_built (websocket s) = rw (asgi_built s.asgi) (simp (set_then py, set_last py))

  scope_entries-distinct : (asgi : D) (s : Scope S) → distinct (scope_entries asgi s) ≡ true
  scope_entries-distinct asgi (http s) = refl
  scope_entries-distinct asgi (lifespan s) = refl
  scope_entries-distinct asgi (websocket s) = refl

  -- Every scope becomes a dictionary, without an error, which has each entry that the ASGI specification
  -- names for a scope of its kind, the versions among them in a dictionary of their own.
  pub scope_into_pyobject_total :
      (s : Scope S)
      → (d asgi : D) × (scope_into_pyobject py new_state s ≡ ok d)
        × HasAll py d (scope_entries asgi s)
        × HasAll py asgi (asgi_entries py (asgi_of s))
  scope_into_pyobject_total s = (
    _,
    asgi_dict s,
    scope_built s,
    puts-HasAll py (scope_entries (asgi_dict s) s) py.new_dict
        (scope_entries-distinct (asgi_dict s) s),
    puts-HasAll py (asgi_entries py (asgi_of s)) py.new_dict refl,
  )
