-- ===== src/Examples/Relays.antt =====
-- A WebSocket connection that stays open.
use trap.Shared.{◌≡◌, refl, true, Option, none, some, [], ◌∷◌, ok}
use trap.Text.Utf8.{str, encode}
use trap.Asgi.Spec.{new_websocket_send}
use trap.Websocket.Library.{text, new_frame, owned}
use trap.Websocket.Builder.{build}
use trap.Websocket.Machine.{State, running, starting, Context, frame_ready, app_ready, run_loop}
use trap.Websocket.Relay.{Relays, run_loop-Relays}
use trap.Mocks.{
  SendToAppCollector, DeterministicReceiveFromApp, send_to_app_collector, deterministic_receive,
}
use trap.Examples.Fixtures.{debug_send, debug_opcode, http_crate, websocket_crate, Script, script}

abbrev Ctx : Type 0
Ctx = Context SendToAppCollector DeterministicReceiveFromApp Script

-- A message from the peer, then one of the application in three frames.
abbrev chat : Ctx
chat = record {
  frame_builder = record { max_frame_size = 2 };
  send_to_app = record { messages = [] };
  receive_from_app = record {
    messages = ok (new_websocket_send none (some (str "hello"))) ∷ [];
    index = 0;
  };
  websocket = record { sent = []; incoming = new_frame true text (owned (str "hi")) ∷ [] };
}

abbrev chatted : Option (State × Ctx)
chatted = run_loop (frame_ready ∷ app_ready ∷ []) starting chat

abbrev or_chat : Option (State × Ctx) → State × Ctx
or_chat none = (starting, chat)
or_chat (some r) = r

chatted_open : chatted ≡ some (running, (or_chat chatted).1)
unfolding run_loop encode build
chatted_open = refl

run_loop-Relays_example : Relays (frame_ready ∷ app_ready ∷ []) starting chat (or_chat chatted).1
run_loop-Relays_example =
    run_loop-Relays (frame_ready ∷ app_ready ∷ []) running chat (or_chat chatted).1 chatted_open tt
