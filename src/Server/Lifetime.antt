-- ===== src/Server/Lifetime.antt =====
-- `ASGIServer::run` of aras/src/server.rs: the lifespan of the application around the accept loop.
use trap.Shared.{◌≡◌, ap, ◌↔◌, ◌⊎◌, inl, inr, true, false, Bool-cases, ok, err, Result-cases, arith}
use trap.Errors.{ArasResult, Debug}
use trap.Asgi.Spec.{AsgiSendEvent, new_lifespan_shutdown, new_shutdown_complete}
use trap.Communication.Interface.{SendToAsgiApp, ReceiveFromAsgiApp, Link}
use trap.Communication.Waiting.{Arrives}
use trap.Lifespan.Handler.{StartedLifespanHandler, startup, shutdown}
use trap.Lifespan.Answers.{shutdown_ok_iff}
use trap.Lifespan.Events.{shutdown_disabled}
use trap.Server.Config.{ArasServer}

-- The branch of `tokio::select!` that resolves: the token is cancelled, or the accept loop is over,
-- with its result.
pub data Selected : Type 0 where
  cancelled : Selected
  served : ArasResult (Unit {0}) → Selected

module _ {S R : Type 0} ⦃sender : SendToAsgiApp S⦄ ⦃receiver : ReceiveFromAsgiApp R⦄
    ⦃debug : Debug AsgiSendEvent⦄ where
  unfoldable pub select : Selected → StartedLifespanHandler S R → ArasResult (Unit {0})
  select cancelled handler = (shutdown handler).1
  select (served out) handler = out

  -- The two handles of the link are those that the factory builds for the lifespan scope.
  unfoldable pub run : ArasServer → Link S R → Selected → ArasResult (Unit {0})
  unfolding select
  run server l selected = elim (startup (record { timeout = server.backpressure_timeout }) l) [
    | ok handler ↦ select selected handler
    | err e ↦ err e
  ]

  -- The application takes the shutdown event and answers in time that its shutdown is complete.
  abbrev pub IsShutDown : StartedLifespanHandler S R → Type 0
  IsShutDown s =
      ((sender.send s.link.send_to new_lifespan_shutdown).1 ≡ ok tt)
      × Arrives s.timeout (receiver.receive s.link.receive_from).1 (ok new_shutdown_complete)

  shutdown_cases :
      (s : StartedLifespanHandler S R)
      → (shutdown s).1 ≡ ok tt
      → (s.enabled ≡ false) ⊎ ((s.enabled ≡ true) × IsShutDown s)
  shutdown_cases s e = elim (Bool-cases s.enabled) [
    | inl on ↦ inr (on, (shutdown_ok_iff s on).0 e)
    | inr off ↦ inl off
  ]

  shutdown_back :
      (s : StartedLifespanHandler S R)
      → (s.enabled ≡ false) ⊎ ((s.enabled ≡ true) × IsShutDown s)
      → (shutdown s).1 ≡ ok tt
  shutdown_back s (inl off) = ap (λ r. r.1) (shutdown_disabled s off)
  shutdown_back s (inr (on, d)) = (shutdown_ok_iff s on).1 d

  -- A server that is cancelled ends without an error exactly if its startup succeeds and its
  -- application either has no part in the protocol or takes the shutdown event and answers in time
  -- that its shutdown is complete.
  pub run_cancelled_iff :
      (server : ArasServer) (l : Link S R)
      → (run server l cancelled ≡ ok tt) ↔ (
          (s : StartedLifespanHandler S R) × (startup
              (record { timeout = server.backpressure_timeout })
              l
            ≡ ok s)
          × ((s.enabled ≡ false) ⊎ ((s.enabled ≡ true) × IsShutDown s)))
  unfolding run select
  run_cancelled_iff server l = (forth, back)
    where
      forth :
          run server l cancelled ≡ ok tt
          → (s : StartedLifespanHandler S R) × (startup
                (record { timeout = server.backpressure_timeout })
                l
              ≡ ok s)
            × ((s.enabled ≡ false) ⊎ ((s.enabled ≡ true) × IsShutDown s))
      forth h = elim (Result-cases (startup (record { timeout = server.backpressure_timeout }) l)) [
        | inl (s, e) ↦ (s, e, shutdown_cases s (rw (e, run, select) at h))
        | inr (x, e) ↦ ground arith
      ]

      back :
          ((s : StartedLifespanHandler S R) × (startup
                (record { timeout = server.backpressure_timeout })
                l
              ≡ ok s)
            × ((s.enabled ≡ false) ⊎ ((s.enabled ≡ true) × IsShutDown s)))
          → run server l cancelled ≡ ok tt
      back (s, e, d) = rw (e, run, select) (shutdown_back s d)
