-- ===== src/Communication/Factory.antt =====
-- `CommunicationFactory::build`, `SendToApp` and `ReceiveFromApp` of communication.rs: the two channels
-- between the server and one run of an application, as either side uses them. `none` is a call that
-- waits.
use trap.Shared.{ℕ, Option, none, some, Result, ok, err, if◌then◌else◌}
use trap.Text.Utf8.{Str, str}
use trap.Asgi.Spec.{AsgiSendEvent, AsgiReceiveEvent, new_http_disconnect}
use trap.Errors.{Debug}
use trap.Communication.Interface.{ApplicationResult, unexpected, CommunicationResult}
use trap.Communication.Channel.{Channel}
use trap.Communication.Handle.{Outcome, ApplicationHandle, new_handle, wait_for_completion}

-- `CommunicationFactory<A>`
pub record CommunicationFactory (A : Type 0) : Type 0 where
  pub application : A
  pub backpressure_size : ℕ

-- The channels, the handle that the server's ends share, and what the oneshot channel has: `none` until
-- the application's task is over.
pub record Connected (A S : Type 0) : Type 0 where
  pub to_app : A
  pub to_server : S
  pub handle : ApplicationHandle
  pub outcome : Option Outcome

pub data DisconnectedClient : Type 0 where
  disconnected_client : DisconnectedClient

-- `Display` of `DisconnectedClient`
abbrev pub disconnected_text : DisconnectedClient → Str
disconnected_text disconnected_client = str "Disconnected client"

-- `SendFn` and `ReceiveFn` of asgispec, on the state that they share
abbrev pub SendFn : Type 0 → Type 0
SendFn W = AsgiSendEvent → W → Option (W × Result (Unit {0}) DisconnectedClient)

abbrev pub ReceiveFn : Type 0 → Type 0
ReceiveFn W = W → Option (W × AsgiReceiveEvent)

-- What the task sends for the value of `app.call(...)`, whose error is printed by `Debug`.
unfoldable pub task_outcome : {E : Type 0} ⦃debug : Debug E⦄ → Result (Unit {0}) E → Outcome
task_outcome (ok _) = some (ok tt)
task_outcome ⦃debug⦄ (err e) = some (err (record { message = debug.debug e }))

module _ {A S : Type 0} ⦃app : Channel AsgiReceiveEvent A⦄ ⦃server : Channel AsgiSendEvent S⦄ where
  -- `CommunicationFactory::build`, with the factory's backpressure size
  unfoldable pub build : ℕ → Connected A S
  build size = record {
    to_app = app.bounded size;
    to_server = server.bounded size;
    handle = new_handle;
    outcome = none;
  }

  -- The call returns without the task's result if it is cached, or if the receiver is gone.
  at_hand : Connected A S → Option (Connected A S × ApplicationResult)
  at_hand c = elim c.handle.cached_result [
    | some r ↦ some (c, r)
    | none ↦ if c.handle.receiver then none else some (c, unexpected)
  ]

  waited :
      Connected A S
      → ApplicationHandle × ApplicationResult
      → Option (Connected A S × ApplicationResult)
  waited c (h, r) = some (record c { handle = h }, r)

  -- `self.handle.wait_for_completion().await`
  unfoldable pub completion : Connected A S → Option (Connected A S × ApplicationResult)
  unfolding at_hand waited
  completion c = elim c.outcome [
    | none ↦ at_hand c
    | some o ↦ waited c (wait_for_completion o c.handle)
  ]

  -- The error that both of the server's ends give, once there is one.
  unfoldable pub failed_with :
      {B : Type 0}
      → Option (Connected A S × ApplicationResult)
      → Option (Connected A S × CommunicationResult B)
  failed_with none = none
  failed_with (some (c, r)) = some (c, err r)

  -- `SendToApp::send`
  unfoldable pub sent :
      Connected A S
      → Option (A × Result (Unit {0}) (Unit {0}))
      → Option (Connected A S × CommunicationResult (Unit {0}))
  sent c none = none
  sent c (some (q, ok _)) = some (record c { to_app = q }, ok tt)
  sent c (some (q, err _)) = failed_with (completion (record c { to_app = q }))

  unfoldable pub send :
      AsgiReceiveEvent → Connected A S → Option (Connected A S × CommunicationResult (Unit {0}))
  unfolding completion failed_with sent
  send message c = sent c (app.send message c.to_app)

  -- `ReceiveFromApp::receive`
  unfoldable pub received :
      Connected A S
      → Option (S × Result AsgiSendEvent (Unit {0}))
      → Option (Connected A S × CommunicationResult AsgiSendEvent)
  received c none = none
  received c (some (q, ok message)) = some (record c { to_server = q }, ok message)
  received c (some (q, err _)) = failed_with (completion (record c { to_server = q }))

  unfoldable pub receive :
      Connected A S → Option (Connected A S × CommunicationResult AsgiSendEvent)
  unfolding completion failed_with received
  receive c = received c (server.recv c.to_server)

  -- `send_closure`
  unfoldable pub closure_sent :
      Connected A S
      → Option (S × Result (Unit {0}) (Unit {0}))
      → Option (Connected A S × Result (Unit {0}) DisconnectedClient)
  closure_sent c none = none
  closure_sent c (some (q, ok _)) = some (record c { to_server = q }, ok tt)
  closure_sent c (some (q, err _)) = some (record c { to_server = q }, err disconnected_client)

  unfoldable pub send_closure : SendFn (Connected A S)
  unfolding closure_sent
  send_closure message c = closure_sent c (server.send message c.to_server)

  -- `receive_closure`
  unfoldable pub closure_received :
      Connected A S
      → Option (A × Result AsgiReceiveEvent (Unit {0}))
      → Option (Connected A S × AsgiReceiveEvent)
  closure_received c none = none
  closure_received c (some (q, ok message)) = some (record c { to_app = q }, message)
  closure_received c (some (q, err _)) = some (record c { to_app = q }, new_http_disconnect)

  unfoldable pub receive_closure : ReceiveFn (Connected A S)
  unfolding closure_received
  receive_closure c = closure_received c (app.recv c.to_app)

  -- The application's ends are dropped with `app.call(...)`, and the server's with its handles.
  unfoldable pub drop_app_ends : Connected A S → Connected A S
  drop_app_ends c = record c { to_app = app.close c.to_app; to_server = server.close c.to_server }

  unfoldable pub drop_sender : Connected A S → Connected A S
  drop_sender c = record c { to_app = app.close c.to_app }

  unfoldable pub drop_receiver : Connected A S → Connected A S
  drop_receiver c = record c { to_server = server.close c.to_server }

  -- The task is over: the oneshot channel has what it sent, or nothing if it has panicked.
  unfoldable pub task_over : Outcome → Connected A S → Connected A S
  task_over o c = record c { outcome = some o }
