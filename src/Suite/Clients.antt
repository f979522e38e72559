-- ===== src/Suite/Clients.antt =====
-- What the tests of aras/src/protocols/websocket.rs share: a client of a connection, and what they read
-- of its frames.
use trap.Shared.{ℕ, ◌≡◌, true, Option, none, some, List, [], ◌∷◌, ◌++◌, map}
use trap.Text.Utf8.{Str, encode}
use trap.Asgi.Spec.{AsgiSendEvent, AsgiReceiveEvent}
use trap.Communication.Interface.{CommunicationResult}
use trap.Websocket.Library.{text, Frame, new_frame, owned}
use trap.Websocket.Machine.{State, Context}
use trap.Mocks.{SendToAppCollector, DeterministicReceiveFromApp}
use trap.Mocks.Stream.{is_close_frame, close_code, message}
use trap.Examples.Fixtures.{Script, websocket_crate}
use trap.Suite.{get_elem?, IsSomeAnd}

-- The connection over a stream that has the messages, each in a frame, and then a close frame; without
-- messages no read of it is ever ready.
abbrev pub build_websocket_client : Option (List Str) → Script
build_websocket_client none = record { sent = []; incoming = [] }
build_websocket_client (some messages) = record {
  sent = [];
  incoming =
      map (λ m. new_frame true text (owned (encode m))) messages
      ++ websocket_crate.close_frame 1000 [] ∷ [];
}

abbrev pub Ctx : Type 0
Ctx = Context SendToAppCollector DeterministicReceiveFromApp Script

-- `Context::new` with a collector and a list of answers
abbrev pub context : ℕ → List (CommunicationResult AsgiSendEvent) → Option (List Str) → Ctx
context size events messages = record {
  frame_builder = record { max_frame_size = size };
  send_to_app = record { messages = [] };
  receive_from_app = record { messages = events; index = 0 };
  websocket = build_websocket_client messages;
}

-- The new state, the frames that were written, and the messages that the application got.
abbrev pub After :
    State → (List Frame → List AsgiReceiveEvent → Type 0) → Option (State × Ctx) → Type 0
After state P none = ⊥
After state P (some (new_state, ctx)) =
    (new_state ≡ state) × P ctx.websocket.sent ctx.send_to_app.messages

-- The frame at an index is a close frame with a code and a message.
abbrev pub IsCloseAt : List Frame → ℕ → ℕ → Str → Type 0
IsCloseAt frames i code said =
    IsSomeAnd
      (λ f. (is_close_frame f ≡ true) × (close_code f ≡ some code) × (message f ≡ some said))
      (get_elem? frames i)
