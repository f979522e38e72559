-- ===== src/Examples/Sessions.antt =====
-- A WebSocket session, from the request to the end of its connection.
use trap.Shared.{ℕ, ◌≡◌, refl, true, false, none, some, List, ◌++◌, [], ◌∷◌, ok}
use trap.Text.Utf8.{Str, str, encode, from_utf8}
use trap.Asgi.Spec.{
  AsgiReceiveEvent, new_http_disconnect, new_websocket_accept, new_websocket_close,
  new_websocket_connect, new_websocket_receive, new_websocket_disconnect,
}
use trap.Communication.Interface.{Link}
use trap.Http.Library.{ResponseHead}
use trap.Websocket.Library.{text, new_frame, owned}
use trap.Websocket.Machine.{closed, Context, frame_ready, app_ready, run_protocol}
use trap.Websocket.Handshake.{
  WebsocketHandler, handle, accept_connection, connect_response, connect_of_event,
  connect_of_accept, upgrade_accepted,
}
use trap.Server.Scopes.{Request, build_websocket}
use trap.Server.Service.{ArasAsgiService, Task, UpgradeCrate, by_websocket, client_text, call}
use trap.Server.Protocol.{connected, HasGot, Hears-IsSession}
use trap.Communication.Factory.{build, send, receive_closure, drop_sender}
use trap.Communication.Delivery.{
  Log, empty_log, Happens, starts, server_sends, app_receives, sender_dropped,
}
use trap.Examples.Deliveries.{Pipes, pipes}
use trap.Examples.Channels.{pipe}
use trap.Mocks.{
  SendToAppCollector, DeterministicReceiveFromApp, send_to_app_collector, deterministic_receive,
}
use trap.Examples.Fixtures.{
  debug_send, debug_opcode, http_crate, websocket_crate, Script, script, link_of,
}

instance abbrev upgrades : UpgradeCrate
upgrades = record { is_upgrade_request = λ request. true }

abbrev service : ArasAsgiService Str ℕ
service = record {
  scope_factory = record { state = 0 };
  communication_factory = record { application = str "chat"; backpressure_size = 16 };
  connection = record {
    client_ip = str "::2";
    server_ip = str "::1";
    client_port = 1234;
    server_port = 80;
  };
  asgi_timeout = 10;
  max_ws_frame_size = 2;
}

abbrev request : Request
request = record {
  version = str "HTTP/1.1";
  method = str "GET";
  path = str "/chat";
  query = none;
  headers = [];
}

-- The application accepts, hears a message and closes.
abbrev chat : Link SendToAppCollector DeterministicReceiveFromApp
chat = link_of (ok (new_websocket_accept none []) ∷ ok (new_websocket_close 1001 (str "bye")) ∷ [])

abbrev ws_handler : WebsocketHandler
ws_handler = record { timeout = 10; max_frame_size = 2; client = str "::2:1234" }

abbrev opened : Link SendToAppCollector DeterministicReceiveFromApp
opened = record {
  send_to = record { messages = new_websocket_connect ∷ [] };
  receive_from = record chat.receive_from { index = 1 };
}

abbrev head : ResponseHead
head = record { status = 101; headers = [] }

abbrev peer : Script
peer = record { sent = []; incoming = new_frame true text (owned (str "hi")) ∷ [] }

abbrev Ctx : Type 0
Ctx = Context SendToAppCollector DeterministicReceiveFromApp Script

abbrev parted : Ctx
parted = record {
  frame_builder = record { max_frame_size = 2 };
  send_to_app = record {
    messages =
        new_websocket_connect
        ∷ new_websocket_receive none (some (str "hi"))
        ∷ new_websocket_disconnect 1001 (str "bye")
        ∷ [];
  };
  receive_from_app = record chat.receive_from { index = 2 };
  websocket = record {
    sent = websocket_crate.close_frame 1001 (encode (str "bye")) ∷ [];
    incoming = [];
  };
}

opening : (handle ws_handler chat (ok (head, ok peer))).spawned ≡ some (opened, ok peer)
unfolding handle accept_connection connect_response connect_of_event connect_of_accept
    upgrade_accepted
opening = refl

parting :
    run_protocol 2 (frame_ready ∷ app_ready ∷ []) (ok peer) opened.send_to opened.receive_from
    ≡ some (closed, some parted)
unfolding run_protocol from_utf8
parting = refl

abbrev task : Task Str ℕ
task = record {
  application = str "chat";
  scope = build_websocket service.scope_factory service.connection request;
  channel_size = 16;
}

asked : call service request ≡ by_websocket task 10 2 (str "::2:1234")
unfolding call client_text
asked = refl

-- The three events go through a channel, whose sender is then dropped, and the application asks once
-- more.
abbrev heard : List AsgiReceiveEvent
heard = parted.send_to_app.messages

abbrev at_end : Pipes
at_end = record (pipes [] [] false none) {
  to_app = record { queue = []; capacity = 16; closed = true };
  to_server = record { queue = []; capacity = 16; closed = false };
}

abbrev heard_log : Log
heard_log = record empty_log { server_sent = heard; app_got = heard ++ new_http_disconnect ∷ [] }

delivered : Happens 16 at_end heard_log
unfolding build send receive_closure drop_sender
delivered =
    app_receives _
      (sender_dropped (
        app_receives _
          (server_sends _
            (app_receives _ (server_sends _ (app_receives _ (server_sends _ starts refl) refl) refl)
              refl)
            refl)
          refl))
      refl

Hears-IsSession_example : HasGot task.scope heard heard_log.app_got
Hears-IsSession_example =
    Hears-IsSession task.scope heard 16 at_end heard_log
      (connected service request asked chat opened head peer (frame_ready ∷ app_ready ∷ []) closed
        parted refl opening parting)
      delivered refl
