-- ===== src/Suite/Tasks.antt =====
-- What the tests of aras/src/communication.rs share: the two channels of an application, and the turns of
-- its task.
use trap.Shared.{◌≡◌, Option, none, some, ◌∷◌, ◌++◌}
use trap.Text.Utf8.{str}
use trap.Asgi.Scope.{Scope}
use trap.Asgi.Spec.{AsgiSendEvent, AsgiReceiveEvent}
use trap.Errors.{Debug}
use trap.Communication.Interface.{ApplicationResult, completed, failed}
use trap.Communication.Factory.{
  Connected, send_closure, receive_closure, drop_app_ends, task_outcome, task_over,
}
use trap.Server.Scopes.{build_lifespan}
use trap.Mocks.Application.{
  TestError, Ended, returned, panicked, after_receive, immediate_return_app, immediate_error_app,
}
use trap.Examples.Channels.{Pipe, pipe}

abbrev pub Pipes : Type 0
Pipes = Connected (Pipe AsgiReceiveEvent) (Pipe AsgiSendEvent)

-- The derived `Debug` of `TestError`, for a message without characters to escape
instance abbrev pub debug_test_error : Debug TestError
debug_test_error = record { debug = λ e. str "TestError(" ++ 34 ∷ e.message ++ 34 ∷ str ")" }

-- One call of either end, or a turn of the application's task.
abbrev pub Step : Type 0 → Type 0
Step A = Pipes → Option (Pipes × A)

-- The step returns, and then its value and what it leaves are as stated.
abbrev pub Then : {A : Type 0} → Step A → (A → Pipes → Type 0) → Pipes → Type 0
Then m P c = elim (m c) [ none ↦ ⊥ | some (c', a) ↦ P a c' ]

-- The step waits.
abbrev pub Waits : {A : Type 0} → Step A → Pipes → Type 0
Waits m c = m c ≡ none

-- The task once the application has returned or panicked.
abbrev pub over : Option (Pipes × Ended) → Option (Pipes × Unit {0})
over none = none
over (some (c, returned r)) = some (task_over (task_outcome r) (drop_app_ends c), tt)
over (some (c, panicked)) = some (task_over none (drop_app_ends c), tt)

abbrev pub scope : Scope (Unit {0})
scope = build_lifespan (record { state = tt })

abbrev pub runs : (Scope (Unit {0}) → Pipes → Option (Pipes × Ended)) → Step (Unit {0})
runs app c = over (app scope c)

-- One round of the loop of `LifespanProtocolApp`, after which it waits in the next one.
abbrev pub round : Step Ended
round c = after_receive receive_closure send_closure (λ w. some (w, panicked)) (receive_closure c)

abbrev pub IsCompleted : ApplicationResult → Type 0
IsCompleted completed = Unit {0}
IsCompleted _ = ⊥

abbrev pub IsFailed : ApplicationResult → Type 0
IsFailed (failed _) = Unit {0}
IsFailed _ = ⊥

-- A turn of the task of each of the applications that return at once.
abbrev pub return_at_once : Step (Unit {0})
return_at_once = runs (immediate_return_app receive_closure send_closure)

abbrev pub error_at_once : Step (Unit {0})
error_at_once = runs (immediate_error_app receive_closure send_closure)
