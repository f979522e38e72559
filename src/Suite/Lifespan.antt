-- ===== src/Suite/Lifespan.antt =====
-- The tests of aras/src/protocols/lifespan.rs.
use trap.Shared.{ℕ, ◌≡◌, refl, Bool, true, false, some, List, [], ◌∷◌, length, ok, err}
use trap.Text.Utf8.{str}
use trap.Asgi.Spec.{
  AsgiSendEvent, new_startup_complete, new_startup_failed, new_shutdown_complete,
  new_shutdown_failed, new_lifespan_startup, new_lifespan_shutdown,
}
use trap.Errors.{to_string, custom}
use trap.Communication.Interface.{CommunicationResult, Link, error_into}
use trap.Lifespan.Handler.{LifespanHandler, StartedLifespanHandler, startup, shutdown}
use trap.Mocks.{
  SendToAppFail, fails, SendToAppCollector, DeterministicReceiveFromApp, send_to_app_fail,
  send_to_app_collector, deterministic_receive, from_secs, from_millis,
}
use trap.Examples.Fixtures.{debug_send, link_of}
use trap.Suite.{IsOk, IsErr, IsOkAnd, IsErrAnd, get_elem?}

abbrev Answering : Type 0
Answering = Link SendToAppCollector DeterministicReceiveFromApp

-- `SendToAppFail::new()` with a list of answers
abbrev refusing :
    List (CommunicationResult AsgiSendEvent) → Link SendToAppFail DeterministicReceiveFromApp
refusing events = record { send_to = fails; receive_from = record { messages = events; index = 0 } }

abbrev within : ℕ → LifespanHandler
within limit = record { timeout = limit }

abbrev started : {S R : Type 0} → Link S R → Bool → ℕ → StartedLifespanHandler S R
started l enabled limit = record { link = l; enabled = enabled; timeout = limit }

abbrev TestLifespanStartup : Type 0
TestLifespanStartup =
    IsOkAnd (λ s. s.enabled ≡ true)
      (startup (within (from_secs 5)) (link_of (ok new_startup_complete ∷ [])))

test_lifespan_startup : TestLifespanStartup
unfolding startup
test_lifespan_startup = refl

abbrev TestLifespanStartupSend : Type 0
TestLifespanStartupSend =
    IsOkAnd
      (λ s.
        (length s.link.send_to.messages ≡ 1)
        × (get_elem? s.link.send_to.messages 0 ≡ some new_lifespan_startup))
      (startup (within (from_secs 5)) (link_of (ok new_startup_complete ∷ [])))

test_lifespan_startup_send : TestLifespanStartupSend
unfolding startup
test_lifespan_startup_send = (refl, refl)

abbrev TestLifespanStartupFails : Type 0
TestLifespanStartupFails =
    IsErrAnd (λ e. to_string e ≡ str "Startup failed")
      (startup (within (from_secs 5))
        (link_of (ok (new_startup_failed (str "Startup failed")) ∷ [])))

test_lifespan_startup_fails : TestLifespanStartupFails
unfolding startup to_string
test_lifespan_startup_fails = refl

abbrev TestErrorOnStartup : Type 0
TestErrorOnStartup =
    IsErrAnd (λ e. to_string e ≡ str "Startup failed")
      (startup (within (from_secs 5))
        (link_of (err (error_into (to_string (custom (str "Startup failed")))) ∷ [])))

test_error_on_startup : TestErrorOnStartup
unfolding startup to_string error_into
test_error_on_startup = refl

abbrev TestErrorWhenSendingStartup : Type 0
TestErrorWhenSendingStartup =
    IsOkAnd (λ s. s.enabled ≡ false)
      (startup (within (from_secs 5)) (refusing (ok new_startup_complete ∷ [])))

test_error_when_sending_startup : TestErrorWhenSendingStartup
unfolding startup
test_error_when_sending_startup = refl

abbrev TestLifespanNotSupportedInvalidMessage : Type 0
TestLifespanNotSupportedInvalidMessage =
    IsErr (startup (within (from_secs 5)) (link_of (ok new_shutdown_complete ∷ [])))

test_lifespan_not_supported_invalid_message : TestLifespanNotSupportedInvalidMessage
unfolding startup
test_lifespan_not_supported_invalid_message = tt

abbrev TestStartupTimeout : Type 0
TestStartupTimeout =
    IsErrAnd (λ e. to_string e ≡ str "ASGI await timeout elapsed")
      (startup (within (from_millis 1)) (link_of []))

test_startup_timeout : TestStartupTimeout
unfolding startup to_string
test_startup_timeout = refl

abbrev TestLifespanShutdownOkIfDisabled : Type 0
TestLifespanShutdownOkIfDisabled = IsOk (shutdown (started (link_of []) false (from_secs 5))).1

test_lifespan_shutdown_ok_if_disabled : TestLifespanShutdownOkIfDisabled
unfolding shutdown
test_lifespan_shutdown_ok_if_disabled = tt

abbrev TestLifespanShutdown : Type 0
TestLifespanShutdown =
    IsOk (shutdown (started (link_of (ok new_shutdown_complete ∷ [])) true (from_secs 5))).1

test_lifespan_shutdown : TestLifespanShutdown
unfolding shutdown
test_lifespan_shutdown = tt

abbrev TestLifespanShutdownSend : Type 0
TestLifespanShutdownSend =
    let s = (shutdown (started (link_of (ok new_shutdown_complete ∷ [])) true (from_secs 5))).0 in
    (length s.link.send_to.messages ≡ 1)
    × (get_elem? s.link.send_to.messages 0 ≡ some new_lifespan_shutdown)

test_lifespan_shutdown_send : TestLifespanShutdownSend
unfolding shutdown
test_lifespan_shutdown_send = (refl, refl)

abbrev TestShutdownFails : Type 0
TestShutdownFails =
    IsErrAnd (λ e. to_string e ≡ str "it failed")
      (shutdown
        (started (link_of (ok (new_shutdown_failed (str "it failed")) ∷ [])) true (from_secs 5))).1

test_shutdown_fails : TestShutdownFails
unfolding shutdown to_string
test_shutdown_fails = refl

abbrev TestErrorOnShutdown : Type 0
TestErrorOnShutdown =
    IsErrAnd (λ e. to_string e ≡ str "error during shutdown")
      (shutdown (
        started (link_of (err (error_into (to_string (custom (str "error during shutdown")))) ∷ []))
          true (from_secs 5))).1

test_error_on_shutdown : TestErrorOnShutdown
unfolding shutdown to_string error_into
test_error_on_shutdown = refl

abbrev TestErrorWhenSendingShutdown : Type 0
TestErrorWhenSendingShutdown =
    IsErrAnd (λ e. to_string e ≡ str "SendToAppFail always fails")
      (shutdown (started (refusing (ok new_shutdown_complete ∷ [])) true (from_secs 5))).1

test_error_when_sending_shutdown : TestErrorWhenSendingShutdown
unfolding shutdown to_string
test_error_when_sending_shutdown = refl

abbrev TestShutdownTimeout : Type 0
TestShutdownTimeout =
    IsErrAnd (λ e. to_string e ≡ str "ASGI await timeout elapsed")
      (shutdown (started (link_of []) true (from_millis 1))).1

test_shutdown_timeout : TestShutdownTimeout
unfolding shutdown to_string
test_shutdown_timeout = refl
