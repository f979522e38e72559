-- ===== src/Suite.antt =====
-- The tests that stand beside the code, module by module: each is the product of what it asserts of its
-- run, on the mocks of aras/mocks.
pub mod Lifespan
pub mod Http
pub mod Responses
pub mod Clients
pub mod States
pub mod Handler
pub mod Frames
pub mod Layers
pub mod Tasks
pub mod Communication
use trap.Shared.{ℕ, zero, suc, Option, none, some, List, [], ◌∷◌, Result, ok, err}
use trap.Text.Utf8.{Str, str}
use trap.Asgi.Spec.{
  AsgiSendEvent, AsgiReceiveEvent, startup_complete, shutdown_complete, websocket_disconnect,
  send_variant_str,
}
use trap.Errors.{Debug}

-- `is_ok_and`, `is_err_and` and `is_some_and`
abbrev pub IsOkAnd {ℓ κ} : {A : Type ℓ} {E : Type κ} → (A → Type 0) → Result A E → Type 0
IsOkAnd P (ok a) = P a
IsOkAnd P (err e) = ⊥

abbrev pub IsErrAnd {ℓ κ} : {A : Type ℓ} {E : Type κ} → (E → Type 0) → Result A E → Type 0
IsErrAnd P (ok a) = ⊥
IsErrAnd P (err e) = P e

abbrev pub IsSomeAnd {ℓ} : {A : Type ℓ} → (A → Type 0) → Option A → Type 0
IsSomeAnd P none = ⊥
IsSomeAnd P (some a) = P a

abbrev pub IsOk {ℓ κ} : {A : Type ℓ} {E : Type κ} → Result A E → Type 0
IsOk r = IsOkAnd (λ a. Unit {0}) r

abbrev pub IsErr {ℓ κ} : {A : Type ℓ} {E : Type κ} → Result A E → Type 0
IsErr r = IsErrAnd (λ e. Unit {0}) r

-- `xs[i]`; `none` is its panic.
abbrev pub get_elem? {ℓ} : {A : Type ℓ} → List A → ℕ → Option A
get_elem? [] i = none
get_elem? (x ∷ xs) zero = some x
get_elem? (x ∷ xs) (suc i) = get_elem? xs i

-- `matches!(event, ASGIReceiveEvent::WebsocketDisconnect(_))`
abbrev pub IsWebsocketDisconnect : AsgiReceiveEvent → Type 0
IsWebsocketDisconnect (websocket_disconnect _) = Unit {0}
IsWebsocketDisconnect _ = ⊥

-- What `derive(Debug)` prints of the events that the tests print, which have no fields, and the names of
-- the others' variants.
abbrev debug_text : AsgiSendEvent → Str
debug_text (startup_complete _) = str "StartupComplete(LifespanStartupCompleteEvent)"
debug_text (shutdown_complete _) = str "ShutdownComplete(LifespanShutdownCompleteEvent)"
debug_text event = send_variant_str event

instance abbrev pub debug_derived : Debug AsgiSendEvent
debug_derived = record { debug = debug_text }
