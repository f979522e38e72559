-- ===== src/Python/Parse.antt =====
-- convert.rs and `PyASGISendEvent` of wrappers.rs: a mapping that a Python application sends becomes an
-- event.
use trap.Shared.{
  false, if◌then◌else◌, [], ◌++◌, list_eq, Result, ok, err, and_then, ok_or, to_option,
}
use trap.Text.Utf8.{Str, str}
use trap.Asgi.Spec.{
  AsgiSendEvent, new_startup_complete, new_startup_failed, new_shutdown_complete,
  new_shutdown_failed, new_http_response_start, new_http_response_body, new_websocket_accept,
  new_websocket_close, new_websocket_send,
}
use trap.Python.Library.{PyErr, PyCrate}

module _ {P D : Type 0} (py : PyCrate P D) where
  -- `py_map.get_item(key).and_then(|v| v.extract::<A>())`
  abbrev pub field : {A : Type 0} → (P → Result A PyErr) → Str → D → Result A PyErr
  field extract key py_map = and_then (py.get_item key py_map) extract

  unfoldable parse_py_http_response_start : D → Result AsgiSendEvent PyErr
  parse_py_http_response_start py_map =
      and_then (field py.extract_u16 (str "status") py_map) λ status.
        ok (
          new_http_response_start status (ok_or [] (field py.extract_pairs (str "headers") py_map)))

  unfoldable parse_py_http_response_body : D → Result AsgiSendEvent PyErr
  parse_py_http_response_body py_map = and_then (field py.extract_bytes (str "body") py_map) λ body.
      ok
        (new_http_response_body body (ok_or false (field py.extract_bool (str "more_body") py_map)))

  unfoldable parse_startup_failed : D → AsgiSendEvent
  parse_startup_failed py_map =
      new_startup_failed (ok_or [] (field py.extract_str (str "message") py_map))

  unfoldable parse_shutdown_failed : D → AsgiSendEvent
  parse_shutdown_failed py_map =
      new_shutdown_failed (ok_or [] (field py.extract_str (str "message") py_map))

  unfoldable parse_websocket_accept : D → Result AsgiSendEvent PyErr
  parse_websocket_accept py_map = ok (
      new_websocket_accept (to_option (field py.extract_str (str "subprotocol") py_map))
        (ok_or [] (field py.extract_pairs (str "headers") py_map)))

  unfoldable parse_websocket_send : D → Result AsgiSendEvent PyErr
  parse_websocket_send py_map = ok (
      new_websocket_send (to_option (field py.extract_bytes (str "bytes") py_map))
        (to_option (field py.extract_str (str "text") py_map)))

  unfoldable pub parse_websocket_close : D → Result AsgiSendEvent PyErr
  parse_websocket_close py_map = ok (
      new_websocket_close (ok_or 1000 (field py.extract_u16 (str "code") py_map))
        (ok_or [] (field py.extract_str (str "reason") py_map)))

  -- `match msg_type.as_str()`
  unfoldable pub parse_type : Str → D → Result AsgiSendEvent PyErr
  unfolding parse_py_http_response_start parse_py_http_response_body parse_startup_failed
      parse_shutdown_failed parse_websocket_accept parse_websocket_send parse_websocket_close
  parse_type msg_type m =
      if list_eq msg_type (str "http.response.start")
      then parse_py_http_response_start m
      else if list_eq msg_type (str "http.response.body")
      then parse_py_http_response_body m
      else if list_eq msg_type (str "lifespan.startup.complete")
      then ok new_startup_complete
      else if list_eq msg_type (str "lifespan.startup.failed")
      then ok (parse_startup_failed m)
      else if list_eq msg_type (str "lifespan.shutdown.complete")
      then ok new_shutdown_complete
      else if list_eq msg_type (str "lifespan.shutdown.failed")
      then ok (parse_shutdown_failed m)
      else if list_eq msg_type (str "websocket.accept")
      then parse_websocket_accept m
      else if list_eq msg_type (str "websocket.send")
      then parse_websocket_send m
      else if list_eq msg_type (str "websocket.close")
      then parse_websocket_close m
      else err (py.value_error (str "Invalid message type '" ++ msg_type ++ str "'"))

  -- `PyASGISendEvent::extract`
  unfoldable pub extract : P → Result AsgiSendEvent PyErr
  unfolding parse_type
  extract obj = and_then (py.cast_mapping obj) λ py_mapping.
      and_then (field py.cast_str (str "type") py_mapping)
        λ msg_type. parse_type msg_type py_mapping
