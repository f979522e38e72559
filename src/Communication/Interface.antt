-- ===== src/Communication/Interface.antt =====
-- The part of communication.rs that the protocols see: the result of a run, and the two traits
-- `SendToASGIApp` and `ReceiveFromASGIApp`, here records of operations and laws.
use trap.Shared.{ℕ, ◌≡◌, List, [], ◌∷◌, ◌++◌, leb, if◌then◌else◌, Result, ok, err, Run}
use trap.Text.Utf8.{Str, str}
use trap.Asgi.Spec.{AsgiSendEvent, AsgiReceiveEvent}
use trap.Errors.{ArasError, application_error, application_not_running, timeout_elapsed, ArasResult}

pub record ApplicationError : Type 0 where
  pub message : Str

-- Why an application is no longer there.
pub data ApplicationResult : Type 0 where
  completed : ApplicationResult
  unexpected : ApplicationResult
  failed : ApplicationError → ApplicationResult

-- `impl From<ApplicationError> for ArasError`
unfoldable pub application_error_into : ApplicationError → ArasError
application_error_into e = application_error e.message

-- `impl From<ApplicationResult> for ArasError`
unfoldable pub application_result_into : ApplicationResult → ArasError
unfolding application_error_into
application_result_into completed = application_not_running
application_result_into unexpected =
    application_error (str "Application shutdown unexpectedly without sending a result")
application_result_into (failed e) = application_error_into e

-- `impl<E: Error> From<E> for ApplicationResult`, for an error that displays as the given text
unfoldable pub error_into : Str → ApplicationResult
error_into text = failed (record { message = text })

abbrev pub CommunicationResult : Type 0 → Type 0
CommunicationResult A = Result A ApplicationResult

-- A future: its value and the time that it takes, or one that never resolves.
pub data Awaited (A : Type 0) : Type 0 where
  ready : ℕ → A → Awaited A
  never : Awaited A

-- `tokio::time::timeout`: the value, if it is there by the limit.
unfoldable pub timeout : {A : Type 0} → ℕ → Awaited A → ArasResult A
timeout limit (ready t a) = if leb t limit then ok a else err timeout_elapsed
timeout limit never = err timeout_elapsed

-- What an application has been handed, once a send has returned.
abbrev pub delivered_after :
    List AsgiReceiveEvent
    → AsgiReceiveEvent
    → CommunicationResult (Unit {0})
    → List AsgiReceiveEvent
delivered_after sent event (ok _) = sent ++ event ∷ []
delivered_after sent event (err _) = sent

-- `trait SendToASGIApp`, over sends that return: a send delivers its event, or reports why it cannot. A
-- send over a full channel waits, for ever if the application never receives; such a run has no
-- `send` here, so that what is said over this interface is said of runs whose sends return.
pub record SendToAsgiApp (S : Type 0) : Type 0 where
  pub send : S → AsgiReceiveEvent → S × CommunicationResult (Unit {0})
  pub delivered : S → List AsgiReceiveEvent
  pub delivered-send :
      (s : S) (event : AsgiReceiveEvent)
      → delivered (send s event).0 ≡ delivered_after (delivered s) event (send s event).1

-- `trait ReceiveFromASGIApp`
pub record ReceiveFromAsgiApp (R : Type 0) : Type 0 where
  pub receive : R → R × Awaited (CommunicationResult AsgiSendEvent)

-- The two handles that `CommunicationFactory::build` returns, and that a protocol owns.
pub record Link (S R : Type 0) : Type 0 where
  pub send_to : S
  pub receive_from : R

-- `send_to.send(event).await?`
unfoldable pub send_event :
    {S R : Type 0} ⦃sender : SendToAsgiApp S⦄
    → AsgiReceiveEvent
    → Run (Link S R) ArasError (Unit {0})
unfolding application_result_into
send_event ⦃sender⦄ event l =
    let (s, sent) = sender.send l.send_to event in
    (record l { send_to = s }, elim sent [ ok u ↦ ok u | err e ↦ err (application_result_into e) ])

-- `tokio::time::timeout(limit, receive_from.receive()).await?`
unfoldable pub receive_within :
    {S R : Type 0} ⦃receiver : ReceiveFromAsgiApp R⦄
    → ℕ
    → Run (Link S R) ArasError (CommunicationResult AsgiSendEvent)
unfolding timeout
receive_within ⦃receiver⦄ limit l =
    let (r, received) = receiver.receive l.receive_from in
    (record l { receive_from = r }, timeout limit received)
