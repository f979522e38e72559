-- ===== src/Examples/Fixtures.antt =====
-- What the examples share: libraries that accept everything, a scripted connection, and links to the
-- mock applications.
use trap.Shared.{
  ◌/◌, ◌%◌, ◌≡◌, refl, sym, ap, ◌∙◌, append-nil, append_assoc, list_eq, if◌then◌else◌, All, true,
  List, [], ◌∷◌, ◌++◌, Result, ok, err,
}
use trap.Text.Utf8.{str, Bytes}
use trap.Errors.{HttpError, WebSocketError, connection_closed, Debug}
use trap.Asgi.Spec.{AsgiSendEvent, send_variant_str}
use trap.Communication.Interface.{CommunicationResult, Link}
use trap.Http.Library.{HttpCrate, values}
use trap.Asgi.Events.{Headers}
use trap.Websocket.Library.{
  OpCode, continuation, text, binary, close, ping, pong, IsPong, IsAnswer, IsAnswerTo, Frame,
  new_frame, owned, WebsocketCrate, FrameSocket,
}
use trap.Mocks.{SendToAppCollector, DeterministicReceiveFromApp}

instance abbrev pub debug_send : Debug AsgiSendEvent
debug_send = record { debug = λ e. send_variant_str e }

instance abbrev pub debug_opcode : Debug OpCode
debug_opcode = record { debug = λ op. str "OpCode" }

-- A header map that lists a new field last.
values-both :
    (name : Bytes) (xs ys : Headers) → values name (xs ++ ys) ≡ values name xs ++ values name ys
values-both name [] ys = refl
values-both name ((k, v) ∷ xs) ys =
    let first = if list_eq name k then v ∷ [] else [] in
    ap (λ z. first ++ z) (values-both name xs ys)
    ∙ sym (append_assoc first (values name xs) (values name ys))

pub values-at_end :
    (hs hs' : Headers) (kv : Bytes × Bytes) (name : Bytes)
    → ◌≡◌ {A = Result Headers HttpError} (ok (hs ++ kv ∷ [])) (ok hs')
    → values name hs' ≡ values name hs ++ values name (kv ∷ [])
values-at_end hs hs' kv name e =
    let k : hs ++ kv ∷ [] ≡ hs' = cc e in ap (values name) (sym k) ∙ values-both name hs (kv ∷ [])

instance abbrev pub http_crate : HttpCrate
http_crate = record {
  check_status = λ s. ok s;
  check_header = λ k v. ok (k, v);
  append = λ hs kv. ok (hs ++ kv ∷ []);
  values-append = λ hs hs' kv name e. values-at_end hs hs' kv name e;
}

instance abbrev pub websocket_crate : WebsocketCrate
websocket_crate = record {
  close_frame = λ code reason. new_frame true close (owned ((code / 256) ∷ (code % 256) ∷ reason));
  normal = 1000;
  protocol = 1002;
  invalid = 1007;
  error = 1011;
  close_frame_lem = λ code reason. refl;
  normal_lem = refl;
  protocol_lem = refl;
  invalid_lem = refl;
  error_lem = refl;
}

-- What a read answers to a frame.
abbrev replies : Frame → OpCode → List Frame
replies f close = record f { opcode = close } ∷ []
replies f _ = []

-- A connection that reads a list of frames without pings and then is closed.
pub record Script : Type 0 where
  pub sent : List Frame
  pub incoming : List Frame

abbrev pub read_script : Script → List Frame → Script × Result Frame WebSocketError
read_script w [] = (w, err (record { kind = connection_closed; display = str "closed" }))
read_script w (f ∷ fs) = (record w { incoming = fs; sent = w.sent ++ replies f f.opcode }, ok f)

replies-IsAnswer :
    (f : Frame) (op : OpCode)
    → f.opcode ≡ op
    → IsAnswer (replies f op) × IsAnswerTo (ok f) (replies f op)
replies-IsAnswer f close e = (refl, e)
replies-IsAnswer f continuation e = (tt, tt)
replies-IsAnswer f text e = (tt, tt)
replies-IsAnswer f binary e = (tt, tt)
replies-IsAnswer f ping e = (tt, tt)
replies-IsAnswer f pong e = (tt, tt)

pub read_script_sent :
    (w : Script) (fs : List Frame)
    → (pongs : List Frame) × (answer : List Frame) × ((read_script w fs).0.sent
        ≡ (w.sent ++ pongs) ++ answer)
      × All IsPong pongs
      × IsAnswer answer
      × IsAnswerTo (read_script w fs).1 answer
read_script_sent w [] = ([], [], sym (append-nil (w.sent ++ []) ∙ append-nil w.sent), tt, tt, tt)
read_script_sent w (f ∷ fs) =
    let (a, b) = replies-IsAnswer f f.opcode refl in
    ([], replies f f.opcode, ap (λ z. z ++ replies f f.opcode) (sym (append-nil w.sent)), tt, a, b)

instance abbrev pub script : FrameSocket Script
script = record {
  write_frame = λ w frame. (record w { sent = w.sent ++ frame ∷ [] }, ok tt);
  read_frame = λ w. read_script w w.incoming;
  written = λ w. w.sent;
  written-write_frame = λ w frame. refl;
  written-read_frame = λ w. read_script_sent w w.incoming;
}

abbrev pub link_of :
    List (CommunicationResult AsgiSendEvent) → Link SendToAppCollector DeterministicReceiveFromApp
link_of events = record {
  send_to = record { messages = [] };
  receive_from = record { messages = events; index = 0 };
}
