-- ===== src/Examples/Deliveries.antt =====
-- The two channels at concrete inputs.
use trap.Shared.{◌≡◌, refl, Bool, true, false, Option, none, some, List, [], ◌∷◌, ok, err, ◌⊎◌, ℕ}
use trap.Asgi.Spec.{
  AsgiSendEvent, AsgiReceiveEvent, new_http_request, new_http_disconnect, new_http_response_start,
}
use trap.Communication.Handle.{Outcome, result_of}
use trap.Communication.Interface.{completed}
use trap.Communication.Exited.{
  sends, receives, sent_with, received_with, all_calls, all_calls-task_over,
}
use trap.Communication.Factory.{
  Connected, build, send, receive, send_closure, receive_closure, drop_app_ends, drop_sender,
  task_over,
}
use trap.Communication.Delivery.{
  Log, Happens, starts, server_sends, server_receives, app_sends, app_receives, app_drops,
  sender_dropped, task_ends, IsDelivering,
}
use trap.Communication.Conserved.{Happens-IsDelivering}
use trap.Communication.Receiving.{Happens-receive, Waits, Gives, Ends}
use trap.Asgi.Scope.{Scope, lifespan, default_asgi_scope}
use trap.Asgi.Spec.{
  new_lifespan_startup, new_lifespan_shutdown, new_startup_complete, new_shutdown_complete,
}
use trap.Mocks.Application.{Ended, lifespan_protocol_app, error_app}
use trap.Examples.Channels.{Pipe, pipe}

abbrev pub Pipes : Type 0
Pipes = Connected (Pipe AsgiReceiveEvent) (Pipe AsgiSendEvent)

abbrev request : AsgiReceiveEvent
request = new_http_request [] false

abbrev answer : AsgiSendEvent
answer = new_http_response_start 200 []

-- Pipes of capacity 1.
abbrev pub pipes : List AsgiReceiveEvent → List AsgiSendEvent → Bool → Option Outcome → Pipes
pipes requests answers over o = record {
  to_app = record { queue = requests; capacity = 1; closed = over };
  to_server = record { queue = answers; capacity = 1; closed = over };
  handle = record { cached_result = none; receiver = true };
  outcome = o;
}

abbrev log :
    List AsgiReceiveEvent → List AsgiReceiveEvent → List AsgiSendEvent → List AsgiSendEvent → Log
log a b c d = record { server_sent = a; app_got = b; app_sent = c; server_got = d }

-- The server sends a request, the application gets it, sends an answer and returns, and the server
-- gets the answer.
asked : Happens 1 (pipes (request ∷ []) [] false none) (log (request ∷ []) [] [] [])
unfolding build send
asked = server_sends request starts refl

answered :
    Happens 1
      (pipes [] (answer ∷ []) false none)
      (log (request ∷ []) (request ∷ []) (answer ∷ []) [])
unfolding receive_closure send_closure
answered = app_sends answer (app_receives request asked refl) refl

over :
    Happens 1
      (pipes [] [] true (some (some (ok tt))))
      (log (request ∷ []) (request ∷ []) (answer ∷ []) (answer ∷ []))
unfolding receive drop_app_ends task_over
over = server_receives answer (task_ends (some (ok tt)) (app_drops answered)) refl

-- The application asks once more after the server has dropped its sender.
asked_again :
    Happens 1
      (record (pipes [] (answer ∷ []) false none) {
        to_app = record { queue = []; capacity = 1; closed = true };
      })
      (log (request ∷ []) (request ∷ new_http_disconnect ∷ []) (answer ∷ []) [])
unfolding receive_closure drop_sender
asked_again = app_receives new_http_disconnect (sender_dropped answered) refl

Happens-IsDelivering_example :
    IsDelivering 1
      (record (pipes [] (answer ∷ []) false none) {
        to_app = record { queue = []; capacity = 1; closed = true };
      })
      (log (request ∷ []) (request ∷ new_http_disconnect ∷ []) (answer ∷ []) [])
Happens-IsDelivering_example = Happens-IsDelivering 1 asked_again

Happens-receive_example :
    let c = pipes [] (answer ∷ []) false none in
    let l = log (request ∷ []) (request ∷ []) (answer ∷ []) [] in Waits c l ⊎ Gives c l ⊎ Ends c l
Happens-receive_example = Happens-receive 1 _ _ answered

-- The application has returned and left its answer.
all_calls-task_over_example :
    all_calls
      (sends request ∷ receives ∷ receives ∷ [])
      (task_over (some (ok tt)) (drop_app_ends (pipes [] (answer ∷ []) false none)))
    ≡ some
        (sent_with (err completed) ∷ received_with (ok answer) ∷ received_with (err completed) ∷ [])
unfolding result_of
all_calls-task_over_example =
    all_calls-task_over (some (ok tt)) (sends request ∷ receives ∷ receives ∷ [])
      (pipes [] (answer ∷ []) false none) refl

-- The applications of the tests of the server, over pipes.
abbrev waiting : List AsgiReceiveEvent → Pipes
waiting events = record (pipes [] [] false none) {
  to_app = record { queue = events; capacity = 2; closed = false };
  to_server = record { queue = []; capacity = 2; closed = false };
}

abbrev answers : Option (Pipes × Ended) → List AsgiSendEvent
answers none = []
answers (some (c, _)) = c.to_server.queue

abbrev lifespan_scope : Scope ℕ
lifespan_scope = lifespan (record { asgi = default_asgi_scope; state = none })

answers-lifespan_protocol_app :
    answers (
      lifespan_protocol_app receive_closure send_closure 3 lifespan_scope
        (waiting (new_lifespan_startup ∷ new_lifespan_shutdown ∷ [])))
    ≡ new_startup_complete ∷ new_shutdown_complete ∷ []
unfolding lifespan_protocol_app receive_closure send_closure
answers-lifespan_protocol_app = refl

answers-error_app :
    answers
      (error_app receive_closure send_closure lifespan_scope (waiting (new_lifespan_startup ∷ [])))
    ≡ new_startup_complete ∷ []
unfolding error_app receive_closure send_closure
answers-error_app = refl
