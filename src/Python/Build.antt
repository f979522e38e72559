-- ===== src/Python/Build.antt =====
-- convert.rs and `PyASGIReceiveEvent` of wrappers.rs: an event becomes a Python dictionary.
use trap.Shared.{Option, none, some, Result, ok, err, Run, ◌>>◌}
use trap.Text.Utf8.{str}
use trap.Asgi.Events.{
  HttpRequestEvent, HttpDisconnectEvent, LifespanStartupEvent, LifespanShutdownEvent,
  WebsocketConnectEvent, WebsocketReceiveEvent, WebsocketDisconnectEvent,
}
use trap.Asgi.Spec.{
  AsgiReceiveEvent, startup, shutdown, http_request, http_disconnect, websocket_connect,
  websocket_disconnect, websocket_receive,
}
use trap.Python.Library.{PyErr, PyCrate}

-- The dictionary that a sequence of `set_item` with `?` leaves.
abbrev pub finished : {D : Type 0} → D × Result (Unit {0}) PyErr → Result D PyErr
finished (d, ok _) = ok d
finished (d, err e) = err e

module _ {P D : Type 0} (py : PyCrate P D) where
  abbrev pub dict : Run D PyErr (Unit {0}) → Result D PyErr
  dict steps = finished (steps py.new_dict)

  -- A value, or `None`.
  abbrev pub or_none : {A : Type 0} → (A → P) → Option A → P
  or_none new none = py.none
  or_none new (some a) = new a

  unfoldable pub http_request_event_into_py : HttpRequestEvent → Result D PyErr
  http_request_event_into_py event = dict (do
    py.set_item (str "type") (py.new_str (str "http.request"))
    py.set_item (str "body") (py.new_bytes event.body)
    py.set_item (str "more_body") (py.new_bool event.more_body))

  unfoldable pub http_disconnect_event_into_py : HttpDisconnectEvent → Result D PyErr
  http_disconnect_event_into_py _ =
      dict (py.set_item (str "type") (py.new_str (str "http.disconnect")))

  unfoldable pub lifespan_startup_into_py : LifespanStartupEvent → Result D PyErr
  lifespan_startup_into_py _ = dict (py.set_item (str "type") (py.new_str (str "lifespan.startup")))

  unfoldable pub lifespan_shutdown_into_py : LifespanShutdownEvent → Result D PyErr
  lifespan_shutdown_into_py _ =
      dict (py.set_item (str "type") (py.new_str (str "lifespan.shutdown")))

  unfoldable pub websocket_connect_into_py : WebsocketConnectEvent → Result D PyErr
  websocket_connect_into_py _ =
      dict (py.set_item (str "type") (py.new_str (str "websocket.connect")))

  unfoldable pub websocket_receive_into_py : WebsocketReceiveEvent → Result D PyErr
  websocket_receive_into_py event = dict (do
    py.set_item (str "type") (py.new_str (str "websocket.receive"))
    py.set_item (str "bytes") (or_none py.new_bytes event.bytes)
    py.set_item (str "text") (or_none py.new_str event.text))

  unfoldable pub websocket_disconnect_into_py : WebsocketDisconnectEvent → Result D PyErr
  websocket_disconnect_into_py event = dict (do
    py.set_item (str "type") (py.new_str (str "websocket.disconnect"))
    py.set_item (str "code") (py.new_int event.code)
    py.set_item (str "reason") (py.new_str event.reason))

  -- `PyASGIReceiveEvent::into_pyobject`
  unfoldable pub into_pyobject : AsgiReceiveEvent → Result D PyErr
  unfolding http_request_event_into_py http_disconnect_event_into_py lifespan_startup_into_py
      lifespan_shutdown_into_py websocket_connect_into_py websocket_receive_into_py
      websocket_disconnect_into_py
  into_pyobject (http_request event) = http_request_event_into_py event
  into_pyobject (http_disconnect event) = http_disconnect_event_into_py event
  into_pyobject (startup event) = lifespan_startup_into_py event
  into_pyobject (shutdown event) = lifespan_shutdown_into_py event
  into_pyobject (websocket_connect event) = websocket_connect_into_py event
  into_pyobject (websocket_receive event) = websocket_receive_into_py event
  into_pyobject (websocket_disconnect event) = websocket_disconnect_into_py event
