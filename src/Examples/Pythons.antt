-- ===== src/Examples/Pythons.antt =====
-- Python messages, events and scopes at concrete inputs.
use trap.Shared.{◌≡◌, refl, inl, inr, true, false, none, some, [], ◌∷◌, ok, err, arith}
use trap.Text.Utf8.{Str, str}
use trap.Asgi.Scope.{Scope, lifespan, default_asgi_scope}
use trap.Asgi.Spec.{
  startup_complete, startup_failed, shutdown_complete, shutdown_failed, http_response_start,
  http_response_body, websocket_accept, websocket_close, websocket_send, new_http_request,
  new_websocket_close, send_variant_str,
}
use trap.Communication.Factory.{send_closure}
use trap.Python.Parse.{field, extract, parse_type, parse_websocket_close}
use trap.Python.Build.{into_pyobject}
use trap.Python.Scopes.{scope_into_pyobject}
use trap.Python.Messages.{extract-IsMessageOf}
use trap.Python.Types.{IsNoName, extract_type, extract_invalid}
use trap.Python.Dictionaries.{HasAll}
use trap.Python.Handed.{
  into_pyobject_total, scope_into_pyobject_total, entries, scope_entries, asgi_entries, asgi_of,
}
use trap.Python.Wrappers.{send_call}
use trap.Python.Delivered.{Delivers, send_call-IsMessageOf}
use trap.Examples.Interpreters.{text, dictionary, Entries, no_entries, entry, python}
use trap.Examples.Channels.{pipe}
use trap.Examples.Deliveries.{pipes}

-- A close without a code and a reason, and a message of an unknown type.
abbrev bye : Entries
bye = entry (str "type") (text (str "websocket.close")) no_entries

abbrev unknown : Entries
unknown = entry (str "type") (text (str "ping")) no_entries

extract-IsMessageOf_example : extract python (dictionary bye) ≡ ok (new_websocket_close 1000 [])
unfolding send_variant_str
extract-IsMessageOf_example =
    extract-IsMessageOf python (dictionary bye) bye (new_websocket_close 1000 []) refl
      (refl, (inr (inl (_, refl), refl), omega arith, inr (inl (_, refl), refl)))

extract_type_example :
    (m : Entries) × (python.cast_mapping (dictionary bye) ≡ ok m)
    × (field python python.cast_str (str "type") m
        ≡ ok (send_variant_str (new_websocket_close 1000 [])))
unfolding extract parse_type parse_websocket_close
extract_type_example = extract_type python (dictionary bye) (new_websocket_close 1000 []) refl

unknown-IsNoName : IsNoName (str "ping")
unfolding send_variant_str
unknown-IsNoName (startup_complete e) h = absurd (cc h)
unknown-IsNoName (startup_failed e) h = absurd (cc h)
unknown-IsNoName (shutdown_complete e) h = absurd (cc h)
unknown-IsNoName (shutdown_failed e) h = absurd (cc h)
unknown-IsNoName (http_response_start e) h = absurd (cc h)
unknown-IsNoName (http_response_body e) h = absurd (cc h)
unknown-IsNoName (websocket_accept e) h = absurd (cc h)
unknown-IsNoName (websocket_close e) h = absurd (cc h)
unknown-IsNoName (websocket_send e) h = absurd (cc h)

extract_invalid_example :
    extract python (dictionary unknown)
    ≡ err (record { display = str "Invalid message type 'ping'" })
extract_invalid_example =
    extract_invalid python (dictionary unknown) unknown (str "ping") refl refl unknown-IsNoName

into_pyobject_total_example :
    (d : Entries) × (into_pyobject python (new_http_request (1 ∷ []) true) ≡ ok d)
    × HasAll python d (entries python (new_http_request (1 ∷ []) true))
into_pyobject_total_example = into_pyobject_total python (new_http_request (1 ∷ []) true)

abbrev scope : Scope Str
scope = lifespan (record { asgi = default_asgi_scope; state = some (str "state") })

scope_into_pyobject_total_example :
    (d asgi : Entries) × (scope_into_pyobject python text scope ≡ ok d)
    × HasAll python d (scope_entries python text asgi scope)
    × HasAll python asgi (asgi_entries python (asgi_of python text scope))
scope_into_pyobject_total_example = scope_into_pyobject_total python text scope

send_call-IsMessageOf_example :
    Delivers python
      (new_websocket_close 1000 [])
      (pipes [] [] false none)
      (pipes [] (new_websocket_close 1000 [] ∷ []) false none)
      (ok tt)
unfolding send_call extract send_variant_str send_closure
send_call-IsMessageOf_example =
    send_call-IsMessageOf python (new_websocket_close 1000 []) bye (pipes [] [] false none) _
      (ok tt) (refl, (inr (inl (_, refl), refl), omega arith, inr (inl (_, refl), refl))) refl
