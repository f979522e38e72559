-- ===== src/Lifespan/Handler.antt =====
-- The handler of the lifespan protocol. `info!` and the like only write a log, and are left out.
use trap.Shared.{ℕ, Bool, true, false, not, if◌then◌else◌, ok, err, Run, ◌>>=◌, ◌>>◌, lift}
use trap.Asgi.Spec.{
  AsgiSendEvent, startup_complete, startup_failed, shutdown_complete, shutdown_failed,
  new_lifespan_startup, new_lifespan_shutdown,
}
use trap.Errors.{ArasError, ArasResult, Debug, unexpected_asgi_message}
use trap.Errors
use trap.Communication.Interface.{
  completed, application_result_into, CommunicationResult, SendToAsgiApp, ReceiveFromAsgiApp, Link,
  send_event, receive_within,
}

pub record LifespanHandler : Type 0 where
  pub timeout : ℕ

pub record StartedLifespanHandler (S R : Type 0) : Type 0 where
  pub link : Link S R
  pub enabled : Bool
  pub timeout : ℕ

module _ ⦃debug : Debug AsgiSendEvent⦄ where
  -- The `match` of `startup_loop` on the application's answer.
  unfoldable pub startup_answer : CommunicationResult AsgiSendEvent → ArasResult Bool
  unfolding application_result_into
  startup_answer (ok (startup_complete _)) = ok true
  startup_answer (ok (startup_failed event)) = err (Errors.startup_failed event.message)
  startup_answer (ok msg) = err (unexpected_asgi_message (debug.debug msg))
  startup_answer (err completed) = ok false
  startup_answer (err e) = err (application_result_into e)

  -- The `match` of `shutdown_loop`.
  unfoldable pub shutdown_answer : CommunicationResult AsgiSendEvent → ArasResult (Unit {0})
  unfolding application_result_into
  shutdown_answer (ok (shutdown_complete _)) = ok tt
  shutdown_answer (ok (shutdown_failed event)) = err (Errors.shutdown_failed event.message)
  shutdown_answer (ok msg) = err (unexpected_asgi_message (debug.debug msg))
  shutdown_answer (err e) = err (application_result_into e)

module _ {S R : Type 0} ⦃sender : SendToAsgiApp S⦄ ⦃receiver : ReceiveFromAsgiApp R⦄
    ⦃debug : Debug AsgiSendEvent⦄ where
  -- The part of `startup_loop` that follows a send which succeeded.
  unfoldable pub await_startup : ℕ → Run (Link S R) ArasError Bool
  unfolding receive_within startup_answer
  await_startup limit = do received ← receive_within limit; lift (startup_answer received)

  unfoldable pub startup_loop : ℕ → Run (Link S R) ArasError Bool
  unfolding await_startup
  startup_loop limit l =
      let (s, sent) = sender.send l.send_to new_lifespan_startup in
      let l' = record l { send_to = s } in
      elim sent [ ok _ ↦ await_startup limit l' | err _ ↦ (l', ok false) ]

  unfoldable pub shutdown_loop : ℕ → Run (Link S R) ArasError (Unit {0})
  unfolding send_event receive_within shutdown_answer
  shutdown_loop limit = do
    send_event new_lifespan_shutdown
    received ← receive_within limit
    lift (shutdown_answer received)

  -- `LifespanHandler::startup`, which takes the two handles over. A failure drops them.
  unfoldable pub startup : LifespanHandler → Link S R → ArasResult (StartedLifespanHandler S R)
  unfolding startup_loop
  startup handler l =
      let (l', outcome) = startup_loop handler.timeout l in
      elim outcome [
        | ok use_lifespan ↦
            ok (record { link = l'; enabled = use_lifespan; timeout = handler.timeout })
        | err e ↦ err e
      ]

  -- `StartedLifespanHandler::shutdown`
  unfoldable pub shutdown : Run (StartedLifespanHandler S R) ArasError (Unit {0})
  unfolding shutdown_loop
  shutdown handler =
      if not handler.enabled
      then (handler, ok tt)
      else (let (l, outcome) = shutdown_loop handler.timeout handler.link in
          (record handler { link = l }, outcome))
