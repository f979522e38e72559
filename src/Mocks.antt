-- ===== src/Mocks.antt =====
-- aras/mocks/communication.rs: an application that collects its events, one that takes none, and one
-- that answers with a list of events.
pub mod Application
pub mod Stream
use trap.Shared.{ℕ, zero, suc, ◌*◌, false, refl, Option, none, some, List, [], ◌∷◌, ◌++◌, ok, err}
use trap.Text.Utf8.{str}
use trap.Asgi.Spec.{
  AsgiSendEvent, AsgiReceiveEvent, new_http_response_start, new_http_response_body,
}
use trap.Communication.Interface.{
  failed, CommunicationResult, Awaited, ready, SendToAsgiApp, ReceiveFromAsgiApp,
}

pub data SendToAppFail : Type 0 where
  fails : SendToAppFail

instance abbrev pub send_to_app_fail : SendToAsgiApp SendToAppFail
send_to_app_fail = record {
  send = λ s message. (s, err (failed (record { message = str "SendToAppFail always fails" })));
  delivered = λ s. [];
  delivered-send = λ s event. refl;
}

pub record SendToAppCollector : Type 0 where
  pub messages : List AsgiReceiveEvent

instance abbrev pub send_to_app_collector : SendToAsgiApp SendToAppCollector
send_to_app_collector = record {
  send = λ s message. (record { messages = s.messages ++ message ∷ [] }, ok tt);
  delivered = λ s. s.messages;
  delivered-send = λ s event. refl;
}

pub record DeterministicReceiveFromApp : Type 0 where
  pub messages : List (CommunicationResult AsgiSendEvent)
  pub index : ℕ

-- `DeterministicReceiveFromApp::default`
abbrev pub default_receive : DeterministicReceiveFromApp
default_receive = record {
  messages = ok (new_http_response_start 200 []) ∷ ok (new_http_response_body [] false) ∷ [];
  index = 0;
}

abbrev at :
    ℕ → List (CommunicationResult AsgiSendEvent) → Option (CommunicationResult AsgiSendEvent)
at n [] = none
at zero (m ∷ ms) = some m
at (suc n) (m ∷ ms) = at n ms

-- `Duration::from_secs` and `Duration::from_millis`: a time is in milliseconds here.
abbrev pub from_secs : ℕ → ℕ
from_secs n = n * 1000

abbrev pub from_millis : ℕ → ℕ
from_millis n = n

-- Past its messages it gives an error after 60 seconds.
abbrev next :
    DeterministicReceiveFromApp
    → Option (CommunicationResult AsgiSendEvent)
    → DeterministicReceiveFromApp × Awaited (CommunicationResult AsgiSendEvent)
next r (some m) = (record r { index = suc r.index }, ready 0 m)
next r none = (
  r,
  ready (from_secs 60) (err (failed (record { message = str "No more messages to receive" }))),
)

instance abbrev pub deterministic_receive : ReceiveFromAsgiApp DeterministicReceiveFromApp
deterministic_receive = record { receive = λ r. next r (at r.index r.messages) }
