-- ===== src/Asgi/Spec.antt =====
-- asgispec/src/spec.rs: the two event types, their names on the wire and their constructors.
use trap.Shared.{ℕ, Bool, Option, some}
use trap.Text.Utf8.{Str, Bytes, str}
use trap.Asgi.Events.{
  Headers, HttpRequestEvent, HttpResponseStartEvent, HttpResponseBodyEvent, HttpDisconnectEvent,
  http_disconnect_event, LifespanStartupEvent, lifespan_startup_event, LifespanStartupCompleteEvent,
  lifespan_startup_complete_event, LifespanStartupFailedEvent, LifespanShutdownEvent,
  lifespan_shutdown_event, LifespanShutdownCompleteEvent, lifespan_shutdown_complete_event,
  LifespanShutdownFailedEvent, WebsocketConnectEvent, websocket_connect_event, WebsocketAcceptEvent,
  WebsocketReceiveEvent, WebsocketSendEvent, WebsocketDisconnectEvent, WebsocketCloseEvent,
  websocket_close_event,
}

-- What an application sends.
pub data AsgiSendEvent : Type 0 where
  startup_complete : LifespanStartupCompleteEvent → AsgiSendEvent
  startup_failed : LifespanStartupFailedEvent → AsgiSendEvent
  shutdown_complete : LifespanShutdownCompleteEvent → AsgiSendEvent
  shutdown_failed : LifespanShutdownFailedEvent → AsgiSendEvent
  http_response_start : HttpResponseStartEvent → AsgiSendEvent
  http_response_body : HttpResponseBodyEvent → AsgiSendEvent
  websocket_accept : WebsocketAcceptEvent → AsgiSendEvent
  websocket_close : WebsocketCloseEvent → AsgiSendEvent
  websocket_send : WebsocketSendEvent → AsgiSendEvent

-- What an application receives.
pub data AsgiReceiveEvent : Type 0 where
  startup : LifespanStartupEvent → AsgiReceiveEvent
  shutdown : LifespanShutdownEvent → AsgiReceiveEvent
  http_request : HttpRequestEvent → AsgiReceiveEvent
  http_disconnect : HttpDisconnectEvent → AsgiReceiveEvent
  websocket_connect : WebsocketConnectEvent → AsgiReceiveEvent
  websocket_disconnect : WebsocketDisconnectEvent → AsgiReceiveEvent
  websocket_receive : WebsocketReceiveEvent → AsgiReceiveEvent

-- The names that serde and `variant_str` give to the events.
unfoldable pub send_variant_str : AsgiSendEvent → Str
send_variant_str (startup_complete _) = str "lifespan.startup.complete"
send_variant_str (startup_failed _) = str "lifespan.startup.failed"
send_variant_str (shutdown_complete _) = str "lifespan.shutdown.complete"
send_variant_str (shutdown_failed _) = str "lifespan.shutdown.failed"
send_variant_str (http_response_start _) = str "http.response.start"
send_variant_str (http_response_body _) = str "http.response.body"
send_variant_str (websocket_accept _) = str "websocket.accept"
send_variant_str (websocket_close _) = str "websocket.close"
send_variant_str (websocket_send _) = str "websocket.send"

unfoldable pub receive_variant_str : AsgiReceiveEvent → Str
receive_variant_str (startup _) = str "lifespan.startup"
receive_variant_str (shutdown _) = str "lifespan.shutdown"
receive_variant_str (http_request _) = str "http.request"
receive_variant_str (http_disconnect _) = str "http.disconnect"
receive_variant_str (websocket_connect _) = str "websocket.connect"
receive_variant_str (websocket_receive _) = str "websocket.receive"
receive_variant_str (websocket_disconnect _) = str "websocket.disconnect"

-- `ASGISendEvent::new_*`

abbrev pub new_startup_complete : AsgiSendEvent
new_startup_complete = startup_complete lifespan_startup_complete_event

abbrev pub new_startup_failed : Str → AsgiSendEvent
new_startup_failed m = startup_failed (record { message = m })

abbrev pub new_shutdown_complete : AsgiSendEvent
new_shutdown_complete = shutdown_complete lifespan_shutdown_complete_event

abbrev pub new_shutdown_failed : Str → AsgiSendEvent
new_shutdown_failed m = shutdown_failed (record { message = m })

abbrev pub new_http_response_start : ℕ → Headers → AsgiSendEvent
new_http_response_start st hs = http_response_start (record { status = st; headers = hs })

abbrev pub new_http_response_body : Bytes → Bool → AsgiSendEvent
new_http_response_body b m = http_response_body (record { body = b; more_body = m })

abbrev pub new_websocket_accept : Option Str → Headers → AsgiSendEvent
new_websocket_accept p hs = websocket_accept (record { subprotocol = p; headers = hs })

abbrev pub new_websocket_close : ℕ → Str → AsgiSendEvent
new_websocket_close c r = websocket_close (websocket_close_event (some c) r)

abbrev pub new_websocket_send : Option Bytes → Option Str → AsgiSendEvent
new_websocket_send b t = websocket_send (record { bytes = b; text = t })

-- `ASGIReceiveEvent::new_*`

abbrev pub new_lifespan_startup : AsgiReceiveEvent
new_lifespan_startup = startup lifespan_startup_event

abbrev pub new_lifespan_shutdown : AsgiReceiveEvent
new_lifespan_shutdown = shutdown lifespan_shutdown_event

abbrev pub new_http_request : Bytes → Bool → AsgiReceiveEvent
new_http_request b m = http_request (record { body = b; more_body = m })

abbrev pub new_http_disconnect : AsgiReceiveEvent
new_http_disconnect = http_disconnect http_disconnect_event

abbrev pub new_websocket_connect : AsgiReceiveEvent
new_websocket_connect = websocket_connect websocket_connect_event

abbrev pub new_websocket_receive : Option Bytes → Option Str → AsgiReceiveEvent
new_websocket_receive b t = websocket_receive (record { bytes = b; text = t })

abbrev pub new_websocket_disconnect : ℕ → Str → AsgiReceiveEvent
new_websocket_disconnect c r = websocket_disconnect (record { code = c; reason = r })
