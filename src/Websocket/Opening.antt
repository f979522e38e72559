-- ===== src/Websocket/Opening.antt =====
-- websocket.rs: when a connection is opened, and with which response.
use trap.Shared.{
  ℕ, ◌≡◌, refl, ap, subst, ◌∙◌, inl, inr, Option, none, some, [], ◌∷◌, ◌++◌, Result, ok, err,
  Result-cases, arith,
}
use trap.Text.Utf8.{Str, Bytes, str, encode}
use trap.Asgi.Events.{Headers, WebsocketAcceptEvent}
use trap.Asgi.Spec.{
  AsgiSendEvent, new_websocket_connect, new_websocket_accept, new_websocket_close, websocket_accept,
}
use trap.Errors.{WebSocketError, Debug}
use trap.Communication.Interface.{SendToAsgiApp, ReceiveFromAsgiApp, Link}
use trap.Communication.Waiting.{Arrives, timeout-cases, timeout_of_Arrives}
use trap.Http.Library.{values, HttpCrate, ResponseHead, Response, append_fields, body}
use trap.Http.Response.{add_headers}
use trap.Http.Relay.{Accepts, Appends, values-Appends, add_headers_lem}
use trap.Websocket.Handshake.{
  WebsocketHandler, accept, close, add_subprotocol, connect_of_accept, connect_of_close,
  connect_of_event, connect_response, merge_responses, Upgrade, accept_connection, upgrade_accepted,
  handle,
}

append_fields_lem :
    ⦃crate : HttpCrate⦄
    → (hs m : Headers) (h : ResponseHead) → Appends hs h.headers m
    → append_fields hs (ok h) ≡ ok (record h { headers = m })
unfolding append_fields
append_fields_lem [] m h e = ap (λ z. ok (record h { headers = z })) e
append_fields_lem (kv ∷ hs) m h (m1, e, es) =
    rw (e, append_fields) (append_fields_lem hs m (record h { headers = m1 }) es)

-- The response to the client has the status of the upgrade, and to the fields of the upgrade those of
-- the application are appended.
merge_responses_lem :
    ⦃crate : HttpCrate⦄
    → (app : Response Bytes) (up : ResponseHead) (m m' : Headers) → Appends up.headers [] m
    → Appends app.head.headers m m'
    → merge_responses app up
      ≡ ok (record { head = record { status = up.status; headers = m' }; body = app.body })
unfolding merge_responses body
merge_responses_lem app up m m' a b = ground (
  arith,
  append_fields_lem up.headers m (record { status = up.status; headers = [] }) a,
  append_fields_lem app.head.headers m' (record { status = up.status; headers = m }) b,
)

module _ ⦃crate : HttpCrate⦄ where
  -- The field of the subprotocol, if the application chose one, before the fields that it names.
  abbrev pub own_fields : Option Str → Headers → Headers
  own_fields none hs = hs
  own_fields (some p) hs = (str "sec-websocket-protocol", encode p) ∷ hs

  add_own_fields :
      (p : Option Str) (hs hs' m : Headers) (h : ResponseHead)
      → Accepts (own_fields p hs) hs'
      → Appends hs' h.headers m
      → add_headers hs (add_subprotocol p (ok h)) ≡ ok (record h { headers = m })
  unfolding add_subprotocol add_headers
  add_own_fields none hs hs' m h a e = add_headers_lem hs hs' m h a e
  add_own_fields (some p) hs hs' m h a e = add_headers_lem (own_fields (some p) hs) hs' m h a e

  connect_of_accept_lem :
      (p : Option Str) (hs hs' m : Headers)
      → Accepts (own_fields p hs) hs'
      → Appends hs' [] m
      → connect_of_accept (record { subprotocol = p; headers = hs })
        ≡ ok (accept (record { head = record { status = 101; headers = m }; body = [] }))
  unfolding connect_of_accept
  connect_of_accept_lem p hs hs' m a e =
      ground (arith, add_own_fields p hs hs' m (record { status = 101; headers = [] }) a e)

  -- A response to the application's event that accepts comes from an accept event.
  connect_of_event-accept :
      ⦃debug : Debug AsgiSendEvent⦄
      → (event : AsgiSendEvent) (r : Response Bytes) → connect_of_event event ≡ ok (accept r)
      → (e : WebsocketAcceptEvent) × (event ≡ websocket_accept e)
  unfolding connect_of_event connect_of_close
  connect_of_event-accept (websocket_accept e) r h = (e, refl)
  connect_of_event-accept _ r h = absurd (ground arith)

module _ {S R : Type 0} ⦃sender : SendToAsgiApp S⦄ ⦃receiver : ReceiveFromAsgiApp R⦄
    ⦃debug : Debug AsgiSendEvent⦄ ⦃crate : HttpCrate⦄ where
  -- The application takes the connect event and gives an answer in time.
  abbrev pub Connects : WebsocketHandler → Link S R → AsgiSendEvent → Type 0
  Connects handler l event =
      ((sender.send l.send_to new_websocket_connect).1 ≡ ok tt)
      × Arrives handler.timeout (receiver.receive l.receive_from).1 (ok event)

  abbrev pub after_connect : Link S R → Link S R
  after_connect l = record {
    send_to = (sender.send l.send_to new_websocket_connect).0;
    receive_from = (receiver.receive l.receive_from).0;
  }

  connects_lem :
      (handler : WebsocketHandler) (l : Link S R) (event : AsgiSendEvent)
      → Connects handler l event
      → accept_connection handler l ≡ (after_connect l, connect_of_event event)
  unfolding accept_connection connect_response
  connects_lem handler l event (t, w) =
      ground (arith, timeout_of_Arrives handler.timeout (receiver.receive l.receive_from).1 _ w)

  -- A connection that the application accepts in time, with a subprotocol and fields that the crate
  -- takes, and whose upgrade succeeds, is handed to a task with the two handles. Where the crate can
  -- hold the maps, the client gets the upgrade's status and the map to which the upgrade's fields and
  -- then the application's map were appended, in which each name has the values that it has among the
  -- upgrade's fields, then that of the subprotocol, then those of the application's own fields.
  pub handle_accepted :
      {W : Type 0} (handler : WebsocketHandler) (l : Link S R) (p : Option Str)
      (hs hs' m up m' : Headers) (head : ResponseHead) (connection : Result W WebSocketError)
      → Connects handler l (new_websocket_accept p hs)
      → Accepts (own_fields p hs) hs'
      → Appends hs' [] m
      → Appends head.headers [] up
      → Appends m up m'
      → (handle handler l (ok (head, connection)) ≡ record {
        response = ok (record { head = record { status = head.status; headers = m' }; body = [] });
        spawned = some (after_connect l, connection);
      })
        × ((name : Bytes) → values name m' ≡ values name head.headers ++ values name hs')
  unfolding handle upgrade_accepted connect_of_event
  handle_accepted handler l p hs hs' m up m' head connection c a b d e = (
    rw (
      connects_lem handler l _ c,
      handle,
      connect_of_accept_lem p hs hs' m a b,
      upgrade_accepted,
      merge_responses_lem (record { head = record { status = 101; headers = m }; body = [] }) head
          up m' d e,
      ap (λ x. x.0) (connects_lem handler l _ c),
    ),
    λ name.
        values-Appends name m up m' e
        ∙ ap (λ z. z ++ values name m) (values-Appends name head.headers [] up d)
        ∙ ap (λ z. values name head.headers ++ z) (values-Appends name hs' [] m b),
  )

  -- A connection that the application closes instead is refused with 403 and the reason as its body.
  -- It is not upgraded: nothing is spawned, whatever the upgrade would have given.
  pub handle_refused :
      {W : Type 0} (handler : WebsocketHandler) (l : Link S R) (code : ℕ) (reason : Str)
      (upgraded : Upgrade W)
      → Connects handler l (new_websocket_close code reason)
      → handle handler l upgraded ≡ record {
        response =
            ok (record { head = record { status = 403; headers = [] }; body = encode reason });
        spawned = none;
      }
  unfolding handle upgrade_accepted connect_of_event connect_of_close
  handle_refused handler l code reason upgraded c = rw (connects_lem handler l _ c, handle)

  -- What an accepted answer says of the exchange.
  accepted_answer :
      (handler : WebsocketHandler) (l : Link S R) (r : Response Bytes)
      → (accept_connection handler l).1 ≡ ok (accept r)
      → ((e : WebsocketAcceptEvent) × Connects handler l (websocket_accept e))
        × ((accept_connection handler l).0 ≡ after_connect l)
  unfolding accept_connection connect_response
  accepted_answer handler l r h =
      elim (Result-cases (sender.send l.send_to new_websocket_connect).1) [
        | inr (x, t) ↦ ground arith
        | inl (u, t) ↦ elim (timeout-cases handler.timeout (receiver.receive l.receive_from).1) [
          | inr (f, _) ↦ ground arith
          | inl (err x, w, f) ↦ ground arith
          | inl (ok event, w, f) ↦
              let (e, q) = connect_of_event-accept event r (ground arith) in
              (
                (
                  e,
                  (
                    t,
                    subst (Arrives handler.timeout (receiver.receive l.receive_from).1) (ap ok q) w,
                  ),
                ),
                ground arith,
              )
        ]
      ]

  -- A task is spawned only for a connection that the application has accepted in time and whose
  -- upgrade has given that very connection.
  pub handle_spawns :
      {W : Type 0} (handler : WebsocketHandler) (l : Link S R) (upgraded : Upgrade W)
      (l' : Link S R) (connection : Result W WebSocketError)
      → (handle handler l upgraded).spawned ≡ some (l', connection)
      → ((e : WebsocketAcceptEvent) × Connects handler l (websocket_accept e))
        × ((head : ResponseHead) × (upgraded ≡ ok (head, connection)))
        × (l' ≡ after_connect l)
  unfolding handle upgrade_accepted
  handle_spawns handler l upgraded l' connection h =
      elim (Result-cases (accept_connection handler l).1) [
        | inr (x, e) ↦ ground arith
        | inl (close r, e) ↦ ground arith
        | inl (accept r, e) ↦
            let (c, after) = accepted_answer handler l r e in
            elim (Result-cases upgraded) [
              | inr (x, u) ↦ ground arith
              | inl ((head, connection'), u) ↦ (c, (head, ground arith), ground arith)
            ]
      ]
