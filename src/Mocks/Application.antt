-- ===== src/Mocks/Application.antt =====
-- aras/mocks/application.rs: the applications that the tests of the server run. `none` is an application
-- that waits for a call, or a loop without fuel left; a panic ends the task without a result.
use trap.Shared.{ℕ, zero, suc, Option, none, some, ◌++◌, Result, ok, err}
use trap.Text.Utf8.{Str, str}
use trap.Asgi.Scope.{Scope, lifespan}
use trap.Asgi.Spec.{
  AsgiSendEvent, AsgiReceiveEvent, shutdown_complete, startup, shutdown, new_startup_complete,
  new_shutdown_complete,
}
use trap.Communication.Factory.{DisconnectedClient, disconnected_text, SendFn, ReceiveFn}

pub record TestError : Type 0 where
  pub message : Str

pub data Ended : Type 0 where
  returned : Result (Unit {0}) TestError → Ended
  panicked : Ended

-- `LifespanProtocolApp::get_response`; `none` is its panic.
unfoldable get_response : AsgiReceiveEvent → Option AsgiSendEvent
get_response (startup _) = some new_startup_complete
get_response (shutdown _) = some new_shutdown_complete
get_response other = none

module _ {W : Type 0} (receive : ReceiveFn W) (send : SendFn W) where
  -- The part of a round that follows the send; `next` is the next round.
  unfoldable after_send :
      AsgiSendEvent
      → (W → Option (W × Ended))
      → Option (W × Result (Unit {0}) DisconnectedClient)
      → Option (W × Ended)
  after_send response next none = none
  after_send response next (some (w, err e)) = some (
    w,
    returned (err (record { message = str "Failed to send message: " ++ disconnected_text e })),
  )
  after_send (shutdown_complete _) next (some (w, ok _)) = some (w, returned (ok tt))
  after_send response next (some (w, ok _)) = next w

  unfoldable respond : Option AsgiSendEvent → (W → Option (W × Ended)) → W → Option (W × Ended)
  unfolding after_send
  respond none next w = some (w, panicked)
  respond (some response) next w = after_send response next (send response w)

  unfoldable pub after_receive :
      (W → Option (W × Ended)) → Option (W × AsgiReceiveEvent) → Option (W × Ended)
  unfolding respond get_response
  after_receive next none = none
  after_receive next (some (w, received_message)) = respond (get_response received_message) next w

  -- `LifespanProtocolApp::run`
  unfoldable run : ℕ → W → Option (W × Ended)
  unfolding after_receive
  run zero w = none
  run (suc fuel) w = after_receive (run fuel) (receive w)

  -- `LifespanProtocolApp::call`
  unfoldable pub lifespan_protocol_app : {S : Type 0} → ℕ → Scope S → W → Option (W × Ended)
  unfolding run
  lifespan_protocol_app fuel (lifespan _) w = run fuel w
  lifespan_protocol_app fuel _ w =
      some (w, returned (err (record { message = str "Invalid scope provided" })))

  -- `ImmediateReturnApp::call` and `ImmediateErrorApp::call`
  unfoldable pub immediate_return_app : {S : Type 0} → Scope S → W → Option (W × Ended)
  immediate_return_app scope w = some (w, returned (ok tt))

  unfoldable pub immediate_error_app : {S : Type 0} → Scope S → W → Option (W × Ended)
  immediate_error_app scope w =
      some (w, returned (err (record { message = str "Immediate error" })))

  -- `ErrorApp::call`
  oops : Option (W × Result (Unit {0}) DisconnectedClient) → Option (W × Ended)
  oops none = none
  oops (some (w, _)) = some (w, returned (err (record { message = str "Oops" })))

  error_after_receive : Option (W × AsgiReceiveEvent) → Option (W × Ended)
  unfolding oops
  error_after_receive none = none
  error_after_receive (some (w, _)) = oops (send new_startup_complete w)

  unfoldable pub error_app : {S : Type 0} → Scope S → W → Option (W × Ended)
  unfolding error_after_receive
  error_app scope w = error_after_receive (receive w)
