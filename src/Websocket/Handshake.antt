-- ===== src/Websocket/Handshake.antt =====
-- `WebsocketHandler::handle`: the application accepts or refuses a connection, and an accepted one is
-- upgraded and handed to a task of its own.
use trap.Shared.{
  ℕ, Bool, true, false, Option, none, some, [], Result, ok, err, map_err, Run, ◌>>=◌, ◌>>◌, lift,
}
use trap.Text.Utf8.{Str, Bytes, str, encode}
use trap.Asgi.Events.{WebsocketAcceptEvent, WebsocketCloseEvent}
use trap.Asgi.Spec.{AsgiSendEvent, websocket_accept, websocket_close, new_websocket_connect}
use trap.Errors.{
  ArasError, ArasResult, http, websocket_error, unexpected_asgi_message, WebSocketError, Debug,
}
use trap.Communication.Interface.{
  CommunicationResult, SendToAsgiApp, ReceiveFromAsgiApp, Link, send_event, receive_within,
  application_result_into,
}
use trap.Http.Library.{
  HttpCrate, ResponseHead, Response, Builder, builder, status_code, header, append_fields, body,
}
use trap.Http.Response.{add_headers}

pub record WebsocketHandler : Type 0 where
  pub timeout : ℕ
  pub max_frame_size : ℕ
  pub client : Str

pub data ConnectResponse : Type 0 where
  accept : Response Bytes → ConnectResponse
  close : Response Bytes → ConnectResponse

abbrev pub accepted : ConnectResponse → Bool
accepted (accept _) = true
accepted (close _) = false

-- `impl From<ConnectResponse> for Response`
abbrev pub into_response : ConnectResponse → Response Bytes
into_response (accept r) = r
into_response (close r) = r

-- `TryFrom<WebsocketCloseEvent>`
unfoldable pub connect_of_close : WebsocketCloseEvent → ArasResult ConnectResponse
unfolding status_code body
connect_of_close event = elim (body (encode event.reason) (status_code 403 builder)) [
  | ok r ↦ ok (close r)
  | err e ↦ err (http e)
]

module _ ⦃crate : HttpCrate⦄ where
  unfoldable pub add_subprotocol : Option Str → Builder → Builder
  add_subprotocol none b = b
  add_subprotocol (some p) b = header (str "sec-websocket-protocol") (encode p) b

  -- `TryFrom<WebsocketAcceptEvent>`
  unfoldable pub connect_of_accept : WebsocketAcceptEvent → ArasResult ConnectResponse
  unfolding status_code body add_subprotocol add_headers
  connect_of_accept event =
      let b =
        add_headers event.headers (add_subprotocol event.subprotocol (status_code 101 builder)) in
      elim (body [] b) [ ok r ↦ ok (accept r) | err e ↦ err (http e) ]

  -- `TryFrom<ASGISendEvent>`
  unfoldable pub connect_of_event :
      ⦃debug : Debug AsgiSendEvent⦄ → AsgiSendEvent → ArasResult ConnectResponse
  connect_of_event (websocket_accept msg) = connect_of_accept msg
  connect_of_event (websocket_close msg) = connect_of_close msg
  connect_of_event ⦃debug⦄ msg = err (unexpected_asgi_message (debug.debug msg))

unfoldable pub merge_responses :
    ⦃crate : HttpCrate⦄ → Response Bytes → ResponseHead → ArasResult (Response Bytes)
unfolding status_code append_fields body
merge_responses app_response upgrade_response = map_err http (
    body app_response.body (
      append_fields app_response.head.headers
        (append_fields upgrade_response.headers (status_code upgrade_response.status builder))))

-- What `upgrade::upgrade` makes of the request: the head of its response and the connection that its
-- future gives later, or an error.
abbrev pub Upgrade : Type 0 → Type 0
Upgrade W = Result (ResponseHead × Result W WebSocketError) WebSocketError

-- The response, and the task that was spawned: the handles and the connection of `run_protocol`.
pub record Handled (S R W : Type 0) : Type 0 where
  pub response : ArasResult (Response Bytes)
  pub spawned : Option (Link S R × Result W WebSocketError)

module _ ⦃debug : Debug AsgiSendEvent⦄ ⦃crate : HttpCrate⦄ where
  -- The `?` on what the application answered, and `try_into`.
  unfoldable pub connect_response : CommunicationResult AsgiSendEvent → ArasResult ConnectResponse
  unfolding application_result_into
  connect_response (ok event) = connect_of_event event
  connect_response (err e) = err (application_result_into e)

module _ {S R W : Type 0} ⦃crate : HttpCrate⦄ where
  unfoldable pub upgrade_accepted : Link S R → ConnectResponse → Upgrade W → Handled S R W
  upgrade_accepted l (close r) upgraded = record { response = ok r; spawned = none }
  upgrade_accepted l (accept r) (err e) = record {
    response = err (websocket_error e);
    spawned = none;
  }
  upgrade_accepted l (accept r) (ok (head, connection)) = record {
    response = merge_responses r head;
    spawned = some (l, connection);
  }

module _ {S R : Type 0} ⦃sender : SendToAsgiApp S⦄ ⦃receiver : ReceiveFromAsgiApp R⦄
    ⦃debug : Debug AsgiSendEvent⦄ ⦃crate : HttpCrate⦄ where
  unfoldable pub accept_connection : WebsocketHandler → Run (Link S R) ArasError ConnectResponse
  unfolding send_event receive_within
  accept_connection handler = do
    send_event new_websocket_connect
    received ← receive_within handler.timeout
    lift (connect_response received)

  unfoldable pub handle : {W : Type 0} → WebsocketHandler → Link S R → Upgrade W → Handled S R W
  handle handler l upgraded =
      let (l', connect) = accept_connection handler l in
      elim connect [
        | err e ↦ record { response = err e; spawned = none }
        | ok app_response ↦ upgrade_accepted l' app_response upgraded
      ]
