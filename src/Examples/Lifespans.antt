-- ===== src/Examples/Lifespans.antt =====
-- The lifespan protocol, and the life of a server.
use trap.Shared.{◌≡◌, refl, inr, true, false, [], ◌∷◌, ok, err, arith}
use trap.Text.Utf8.{str}
use trap.Errors
use trap.Errors.{timeout_elapsed, application_error}
use trap.Asgi.Spec.{
  new_lifespan_startup, new_lifespan_shutdown, new_startup_complete, new_startup_failed,
  new_shutdown_complete,
}
use trap.Communication.Interface.{completed, Link}
use trap.Lifespan.Handler.{LifespanHandler, StartedLifespanHandler, startup, shutdown}
use trap.Lifespan.Answers.{startup_enabled_iff, startup_disabled_iff, shutdown_ok_iff}
use trap.Lifespan.Failures.{startup_fails_iff}
use trap.Lifespan.Events.{lifespan_events}
use trap.Server.Config.{ArasServer, new_builder, build}
use trap.Server.Lifetime.{cancelled, run, run_cancelled_iff}
use trap.Mocks.{
  SendToAppCollector, DeterministicReceiveFromApp, send_to_app_collector, deterministic_receive,
}
use trap.Examples.Fixtures.{debug_send, link_of}

abbrev handler : LifespanHandler
handler = record { timeout = 10 }

abbrev Started : Type 0
Started = StartedLifespanHandler SendToAppCollector DeterministicReceiveFromApp

abbrev good : Link SendToAppCollector DeterministicReceiveFromApp
good = link_of (ok new_startup_complete ∷ ok new_shutdown_complete ∷ [])

startup_enabled_iff_example : (s : Started) × (startup handler good ≡ ok s) × (s.enabled ≡ true)
startup_enabled_iff_example = (startup_enabled_iff handler good).1 (refl, (0, omega arith, refl))

startup_disabled_iff_example :
    (s : Started) × (startup handler (link_of (err completed ∷ [])) ≡ ok s) × (s.enabled ≡ false)
startup_disabled_iff_example =
    (startup_disabled_iff handler (link_of (err completed ∷ []))).1
      (inr (refl, (0, omega arith, refl)))

startup_fails_iff_example :
    startup handler (link_of (ok (new_startup_failed (str "no")) ∷ []))
    ≡ err (Errors.startup_failed (str "no"))
startup_fails_iff_example =
    (startup_fails_iff handler (link_of (ok (new_startup_failed (str "no")) ∷ []))
        (Errors.startup_failed (str "no"))).1
      (refl, inr (ok (new_startup_failed (str "no")), (0, omega arith, refl), refl))

abbrev started : Started
started = record {
  link = record {
    send_to = record { messages = new_lifespan_startup ∷ [] };
    receive_from = record {
      messages = ok new_startup_complete ∷ ok new_shutdown_complete ∷ [];
      index = 1;
    };
  };
  enabled = true;
  timeout = 10;
}

shutdown_ok_iff_example : (shutdown started).1 ≡ ok tt
shutdown_ok_iff_example = (shutdown_ok_iff started refl).1 (refl, (0, omega arith, refl))

startup-good : startup handler good ≡ ok started
unfolding startup
startup-good = refl

lifespan_events_example :
    (shutdown started).0.link.send_to.messages ≡ new_lifespan_startup ∷ new_lifespan_shutdown ∷ []
lifespan_events_example =
    lifespan_events handler good started startup-good refl shutdown_ok_iff_example

abbrev idle : Started
idle = record { link = good; enabled = false; timeout = 10 }

abbrev server : ArasServer
server = build (new_builder 100)

run_cancelled_iff_example : run (record server { backpressure_timeout = 10 }) good cancelled ≡ ok tt
run_cancelled_iff_example =
    (run_cancelled_iff (record server { backpressure_timeout = 10 }) good).1
      (started, startup-good, inr (refl, (refl, (0, omega arith, refl))))
