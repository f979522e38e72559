-- ===== src/Python/Wrappers.antt =====
-- wrappers.rs: `PySend`, `PyReceive` and `PyASGIAppWrapper`, by which a Python application is an
-- application of asgispec. `none` is a call that waits.
use trap.Shared.{Option, none, some, Result, ok, err, map_err, and_then, Run, ◌>>=◌, lift}
use trap.Asgi.Spec.{AsgiSendEvent, AsgiReceiveEvent}
use trap.Asgi.Scope.{Scope}
use trap.Errors.{ArasError, custom}
use trap.Communication.Factory.{DisconnectedClient, disconnected_text, SendFn, ReceiveFn}
use trap.Python.Library.{PyErr, PyCrate}
use trap.Python.Parse.{extract}
use trap.Python.Build.{into_pyobject}
use trap.Python.Scopes.{scope_into_pyobject}

-- The interpreter, as `PyASGIAppWrapper::call` uses it: the call of the application object with a scope
-- and the two functions, `into_future_with_locals`, and the wait for that future.
pub record Interpreter (P D F W : Type 0) : Type 0 where
  pub call1 : D → ReceiveFn W → SendFn W → Run W PyErr P
  pub into_future : P → Run W PyErr F
  pub wait : F → W → Option (W × Result P PyErr)

-- `.map_err(|e: PyErr| ArasError::custom(e.to_string()))`
abbrev pub as_custom : {A : Type 0} → Result A PyErr → Result A ArasError
as_custom r = map_err (λ e. custom e.display) r

module _ {P D W : Type 0} (py : PyCrate P D) where
  -- `.map_err(|e| PyIOError::new_err(format!("{e}")))?`
  unfoldable pub answered :
      Option (W × Result (Unit {0}) DisconnectedClient) → Option (W × Result (Unit {0}) PyErr)
  answered none = none
  answered (some (w, r)) = some (w, map_err (λ e. py.io_error (disconnected_text e)) r)

  -- `PySend::__call__`, once the message is converted
  unfoldable pub send_converted :
      SendFn W → W → Result AsgiSendEvent PyErr → Option (W × Result (Unit {0}) PyErr)
  unfolding answered
  send_converted send w (err e) = some (w, err e)
  send_converted send w (ok converted_message) = answered (send converted_message w)

  -- `PySend::__call__`
  unfoldable pub send_call : SendFn W → D → W → Option (W × Result (Unit {0}) PyErr)
  unfolding send_converted
  send_call send message w = send_converted send w (extract py (py.of_dict message))

  converted : Option (W × AsgiReceiveEvent) → Option (W × Result D PyErr)
  converted none = none
  converted (some (w, received)) = some (w, into_pyobject py received)

  -- `PyReceive::__call__`
  unfoldable receive_call : ReceiveFn W → W → Option (W × Result D PyErr)
  unfolding converted
  receive_call receive w = converted (receive w)

module _ {P D F W S : Type 0} (py : PyCrate P D) (new_state : S → P)
    (app : Interpreter P D F W) where
  -- The `Python::attach` block
  attached : Scope S → ReceiveFn W → SendFn W → Run W PyErr F
  attached scope receive send = do
    d ← lift (scope_into_pyobject py new_state scope)
    maybe_awaitable ← app.call1 d receive send
    app.into_future maybe_awaitable

  finished_call : Option (W × Result P PyErr) → Option (W × Result (Unit {0}) ArasError)
  finished_call none = none
  finished_call (some (w, r)) = some (w, and_then (as_custom r) (λ _. ok tt))

  -- `PyASGIAppWrapper::call`
  unfoldable app_call :
      Scope S → ReceiveFn W → SendFn W → W → Option (W × Result (Unit {0}) ArasError)
  unfolding attached finished_call
  app_call scope receive send w =
      let (w1, future) = attached scope receive send w in
      elim (as_custom future) [ err e ↦ some (w1, err e) | ok f ↦ finished_call (app.wait f w1) ]
