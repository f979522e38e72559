-- ===== src/Suite/Communication.antt =====
-- The tests of aras/src/communication.rs. The runtime of a test has one thread, on which the task of the
-- application gets its turn when the test waits.
use trap.Shared.{◌≡◌, refl, ok}
use trap.Asgi.Spec.{
  new_lifespan_startup, new_lifespan_shutdown, new_http_disconnect, new_startup_complete,
  new_shutdown_complete,
}
use trap.Communication.Interface.{CommunicationResult}
use trap.Communication.Handle.{wait_for_completion, result_of}
use trap.Communication.Factory.{
  build, send, receive, send_closure, receive_closure, drop_app_ends, drop_sender, drop_receiver,
  task_outcome, task_over,
}
use trap.Server.Scopes.{build_lifespan}
use trap.Mocks.Application.{
  after_receive, lifespan_protocol_app, immediate_return_app, immediate_error_app, error_app,
}
use trap.Examples.Channels.{pipe}
use trap.Suite.Tasks.{
  Pipes, Then, Waits, runs, round, IsCompleted, IsFailed, return_at_once, error_at_once,
  debug_test_error,
}
use trap.Suite.{IsOk, IsErr, IsOkAnd, IsErrAnd}

abbrev TestSendLifespanStartupEvent : Type 0
TestSendLifespanStartupEvent =
    Then (send new_lifespan_startup)
      (λ sent c1.
        IsOk sent
        × Waits receive c1
        × Then round (λ _ c2. Then receive (λ received c3. received ≡ ok new_startup_complete) c2)
            c1)
      (build 16)

test_send_lifespan_startup_event : TestSendLifespanStartupEvent
unfolding build send receive after_receive send_closure receive_closure
test_send_lifespan_startup_event = (tt, refl, refl)

abbrev TestSendLifespanShutdownEvent : Type 0
TestSendLifespanShutdownEvent =
    Then (send new_lifespan_shutdown)
      (λ sent c1.
        IsOk sent
        × Waits receive c1
        × Then (runs (lifespan_protocol_app receive_closure send_closure 1))
            (λ _ c2. Then receive (λ received c3. received ≡ ok new_shutdown_complete) c2) c1)
      (build 16)

test_send_lifespan_shutdown_event : TestSendLifespanShutdownEvent
unfolding build send receive lifespan_protocol_app send_closure receive_closure drop_app_ends
    task_over build_lifespan
test_send_lifespan_shutdown_event = (tt, refl, refl)

abbrev TestAppReturnsWithoutSendingMessageSendTo : Type 0
TestAppReturnsWithoutSendingMessageSendTo =
    Then (send new_lifespan_startup) (λ result c. IsOk result) (drop_receiver (build 16))

test_app_returns_without_sending_message_send_to : TestAppReturnsWithoutSendingMessageSendTo
unfolding build send drop_receiver
test_app_returns_without_sending_message_send_to = tt

abbrev TestAppReturnsWithoutSendingMessageReceiveFrom : Type 0
TestAppReturnsWithoutSendingMessageReceiveFrom =
    Waits receive (drop_sender (build 16))
    × Then return_at_once (λ _ c1. Then receive (λ result c2. IsErrAnd IsCompleted result) c1)
        (drop_sender (build 16))

test_app_returns_without_sending_message_receive_from :
    TestAppReturnsWithoutSendingMessageReceiveFrom
unfolding build receive drop_sender immediate_return_app drop_app_ends task_outcome task_over
    wait_for_completion result_of
test_app_returns_without_sending_message_receive_from = (refl, tt)

abbrev TestAppRaisesAnErrorSendTo : Type 0
TestAppRaisesAnErrorSendTo =
    Then (send new_lifespan_startup) (λ result c. IsOk result) (drop_receiver (build 16))

test_app_raises_an_error_send_to : TestAppRaisesAnErrorSendTo
unfolding build send drop_receiver
test_app_raises_an_error_send_to = tt

abbrev TestAppRaisesAnErrorReceiveFrom : Type 0
TestAppRaisesAnErrorReceiveFrom =
    Waits receive (drop_sender (build 16))
    × Then error_at_once (λ _ c1. Then receive (λ result c2. IsErrAnd IsFailed result) c1)
        (drop_sender (build 16))

test_app_raises_an_error_receive_from : TestAppRaisesAnErrorReceiveFrom
unfolding build receive drop_sender immediate_error_app drop_app_ends task_outcome task_over
    wait_for_completion result_of
test_app_raises_an_error_receive_from = (refl, tt)

abbrev TestAppRaisesAnErrorReceiveThenSend : Type 0
TestAppRaisesAnErrorReceiveThenSend =
    Waits receive (build 16)
    × Then error_at_once
        (λ _ c1.
          Then receive
            (λ recv_result c2.
              IsErr recv_result
              × Then (send new_lifespan_shutdown) (λ send_result c3. IsErr send_result) c2)
            c1)
        (build 16)

test_app_raises_an_error_receive_then_send : TestAppRaisesAnErrorReceiveThenSend
unfolding build send receive immediate_error_app drop_app_ends task_outcome task_over
    wait_for_completion result_of
test_app_raises_an_error_receive_then_send = (refl, (tt, tt))

abbrev TestAppRaisesAnErrorSendThenReceive : Type 0
TestAppRaisesAnErrorSendThenReceive =
    Then (send new_lifespan_shutdown)
      (λ send_result c1.
        IsOk send_result
        × Waits receive c1
        × Then error_at_once (λ _ c2. Then receive (λ recv_result c3. IsErr recv_result) c2) c1)
      (build 16)

test_app_raises_an_error_send_then_receive : TestAppRaisesAnErrorSendThenReceive
unfolding build send receive immediate_error_app drop_app_ends task_outcome task_over
    wait_for_completion result_of
test_app_raises_an_error_send_then_receive = (tt, refl, tt)

-- `yield_now` gives the task its turn.
abbrev TestAppRaisesAnErrorSendThenReceiveWithYield : Type 0
TestAppRaisesAnErrorSendThenReceiveWithYield =
    Then error_at_once
      (λ _ c1.
        Then (send new_lifespan_shutdown)
          (λ send_result c2.
            IsErr send_result × Then receive (λ recv_result c3. IsErr recv_result) c2)
          c1)
      (build 16)

test_app_raises_an_error_send_then_receive_with_yield : TestAppRaisesAnErrorSendThenReceiveWithYield
unfolding build send receive immediate_error_app drop_app_ends task_outcome task_over
    wait_for_completion result_of
test_app_raises_an_error_send_then_receive_with_yield = (tt, tt)

-- Receives and sends whose results are all errors, of an application that has completed.
abbrev Completes : {A : Type 0} → (Pipes → Type 0) → CommunicationResult A → Pipes → Type 0
Completes P result c = IsErrAnd IsCompleted result × P c

abbrev TestErrorValueIsCorrect : Type 0
TestErrorValueIsCorrect =
    Waits receive (build 16)
    × Then return_at_once
        (λ _. Then receive (
          Completes (
            Then receive (
              Completes (
                Then (send new_lifespan_startup) (
                  Completes (
                    Then receive (
                      Completes
                        (Then (send new_http_disconnect) (Completes (λ c. Unit {0})))))))))))
        (build 16)

test_error_value_is_correct : TestErrorValueIsCorrect
unfolding build send receive immediate_return_app drop_app_ends task_outcome task_over
    wait_for_completion result_of
test_error_value_is_correct = (refl, (tt, (tt, (tt, (tt, (tt, tt))))))

abbrev TestErrorInApplication : Type 0
TestErrorInApplication =
    Then (send new_lifespan_startup)
      (λ send1 c1.
        IsOk send1
        × Waits receive c1
        × Then (runs (error_app receive_closure send_closure))
            (λ _. Then receive (λ recv1 c2.
              IsOkAnd (λ msg. msg ≡ new_startup_complete) recv1
              × Then (send new_lifespan_shutdown)
                  (λ send2 c3.
                    IsErrAnd IsFailed send2 × Then receive (λ recv2 c4. IsErrAnd IsFailed recv2) c3)
                  c2))
            c1)
      (build 16)

test_error_in_application : TestErrorInApplication
unfolding build send receive error_app send_closure receive_closure drop_app_ends task_outcome
    task_over wait_for_completion result_of
test_error_in_application = (tt, refl, (refl, (tt, tt)))
