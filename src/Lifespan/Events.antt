-- ===== src/Lifespan/Events.antt =====
-- lifespan.rs: what the application is told over its life.
use trap.Shared.{◌≡◌, ◌∙◌, ap, true, false, ok, arith, [], ◌∷◌, ◌++◌, append_assoc}
use trap.Asgi.Spec.{AsgiSendEvent, new_lifespan_startup, new_lifespan_shutdown}
use trap.Errors.{Debug}
use trap.Communication.Interface.{SendToAsgiApp, ReceiveFromAsgiApp, Link}
use trap.Lifespan.Handler.{LifespanHandler, StartedLifespanHandler, startup, shutdown}
use trap.Lifespan.Answers.{Takes, startup_enabled_iff, shutdown_ok_iff}

module _ {S R : Type 0} ⦃sender : SendToAsgiApp S⦄ ⦃receiver : ReceiveFromAsgiApp R⦄
    ⦃debug : Debug AsgiSendEvent⦄ where
  pub delivered-startup :
      (h : LifespanHandler) (l : Link S R) (s : StartedLifespanHandler S R)
      → startup h l ≡ ok s
      → Takes l
      → sender.delivered s.link.send_to ≡ sender.delivered l.send_to ++ new_lifespan_startup ∷ []
  unfolding startup
  delivered-startup h l s e t = ground (arith, sender.delivered-send l.send_to new_lifespan_startup)

  delivered-shutdown :
      (s : StartedLifespanHandler S R)
      → s.enabled ≡ true
      → (sender.send s.link.send_to new_lifespan_shutdown).1 ≡ ok tt
      → sender.delivered (shutdown s).0.link.send_to
        ≡ sender.delivered s.link.send_to ++ new_lifespan_shutdown ∷ []
  unfolding shutdown
  delivered-shutdown s on t =
      ground (arith, sender.delivered-send s.link.send_to new_lifespan_shutdown)

  -- A startup that leaves the protocol enabled, then a shutdown that succeeds, hand the application
  -- the startup event and the shutdown event, each once and in this order.
  pub lifespan_events :
      (h : LifespanHandler) (l : Link S R) (s : StartedLifespanHandler S R)
      → startup h l ≡ ok s
      → s.enabled ≡ true
      → (shutdown s).1 ≡ ok tt
      → sender.delivered (shutdown s).0.link.send_to
        ≡ sender.delivered l.send_to ++ new_lifespan_startup ∷ new_lifespan_shutdown ∷ []
  lifespan_events h l s e on down =
      let t = ((startup_enabled_iff h l).0 (s, e, on)).0 in
      let d = ((shutdown_ok_iff s on).0 down).0 in
      delivered-shutdown s on d
      ∙ ap (λ es. es ++ new_lifespan_shutdown ∷ []) (delivered-startup h l s e t)
      ∙ append_assoc (sender.delivered l.send_to) _ _

  -- With the protocol disabled a shutdown succeeds at once and leaves the handles as they were: the
  -- application is told nothing more.
  pub shutdown_disabled :
      (s : StartedLifespanHandler S R) → s.enabled ≡ false → shutdown s ≡ (s, ok tt)
  unfolding shutdown
  shutdown_disabled s off = ground arith
