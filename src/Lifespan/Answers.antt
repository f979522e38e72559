-- ===== src/Lifespan/Answers.antt =====
-- lifespan.rs: when the startup and the shutdown succeed, and with which error they fail.
use trap.Shared.{
  ℕ, ◌≡◌, refl, sym, subst, ◌∙◌, ap, ◌↔◌, ◌⊎◌, inl, inr, Bool, true, false, ok, err, Result-cases,
  arith,
}
use trap.Asgi.Spec.{
  AsgiSendEvent, new_lifespan_startup, new_lifespan_shutdown, new_startup_complete,
  new_startup_failed, new_shutdown_complete,
}
use trap.Errors
use trap.Errors.{Debug, ArasError, timeout_elapsed, application_error}
use trap.Text.Utf8.{Str}
use trap.Communication.Interface.{
  ApplicationError, completed, failed, CommunicationResult, SendToAsgiApp, ReceiveFromAsgiApp, Link,
}
use trap.Communication.Waiting.{Arrives, timeout-cases, timeout_of_Arrives}
use trap.Lifespan.Handler.{
  LifespanHandler, StartedLifespanHandler, startup_answer, shutdown_answer, startup_loop, startup,
  shutdown,
}

module _ ⦃debug : Debug AsgiSendEvent⦄ where
  startup_answer-true :
      (a : CommunicationResult AsgiSendEvent)
      → startup_answer a ≡ ok true
      → a ≡ ok new_startup_complete
  unfolding startup_answer
  startup_answer-true a h = ground arith

  startup_answer-false :
      (a : CommunicationResult AsgiSendEvent) → startup_answer a ≡ ok false → a ≡ err completed
  unfolding startup_answer
  startup_answer-false a h = ground arith

  shutdown_answer_ok :
      (a : CommunicationResult AsgiSendEvent)
      → shutdown_answer a ≡ ok tt
      → a ≡ ok new_shutdown_complete
  unfolding shutdown_answer
  shutdown_answer_ok a h = ground arith

module _ {S R : Type 0} ⦃sender : SendToAsgiApp S⦄ ⦃receiver : ReceiveFromAsgiApp R⦄
    ⦃debug : Debug AsgiSendEvent⦄ where
  -- The application takes the startup event, and answers it in time.
  abbrev pub Takes : Link S R → Type 0
  Takes l = (sender.send l.send_to new_lifespan_startup).1 ≡ ok tt

  abbrev pub Answers : ℕ → Link S R → CommunicationResult AsgiSendEvent → Type 0
  Answers limit l = Arrives limit (receiver.receive l.receive_from).1

  startup_outcome :
      (limit : ℕ) (l : Link S R) (b : Bool)
      → Takes l
      → (startup_loop limit l).1 ≡ ok b
      → (a : CommunicationResult AsgiSendEvent) × Answers limit l a × (startup_answer a ≡ ok b)
  unfolding startup_loop
  startup_outcome limit l b t h = elim (timeout-cases limit (receiver.receive l.receive_from).1) [
    | inl (a, w, e) ↦ (a, w, ground arith)
    | inr (e, _) ↦ ground arith
  ]

  pub startup_not_taken :
      (limit : ℕ) (l : Link S R) → ¬ Takes l → (startup_loop limit l).1 ≡ ok false
  unfolding startup_loop
  startup_not_taken limit l t = elim (Result-cases (sender.send l.send_to new_lifespan_startup).1) [
    | inl (tt, e) ↦ absurd (t e)
    | inr (r, e) ↦ rw (e, startup_loop)
  ]

  -- The handler that a successful startup leaves behind.
  startup-eq-ok :
      (h : LifespanHandler) (l : Link S R) (s : StartedLifespanHandler S R)
      → startup h l ≡ ok s
      → (startup_loop h.timeout l).1 ≡ ok s.enabled
  unfolding startup
  startup-eq-ok h l s e = elim (Result-cases (startup_loop h.timeout l).1) [
    | inl (b, f) ↦ ground arith
    | inr (r, f) ↦ ground arith
  ]

  startup_of_loop :
      (h : LifespanHandler) (l : Link S R) (b : Bool)
      → (startup_loop h.timeout l).1 ≡ ok b
      → (s : StartedLifespanHandler S R) × (startup h l ≡ ok s) × (s.enabled ≡ b)
  unfolding startup
  startup_of_loop h l b e = (
    record { link = (startup_loop h.timeout l).0; enabled = b; timeout = h.timeout },
    rw (e, startup),
    refl,
  )

  pub taken_answer :
      (limit : ℕ) (l : Link S R) (a : CommunicationResult AsgiSendEvent)
      → Takes l
      → Answers limit l a
      → (startup_loop limit l).1 ≡ startup_answer a
  unfolding startup_loop
  taken_answer limit l a t w =
      ground (arith, timeout_of_Arrives limit (receiver.receive l.receive_from).1 a w)

  pub startup_timeout :
      (limit : ℕ) (l : Link S R)
      → Takes l
      → ((a : CommunicationResult AsgiSendEvent) → ¬ Answers limit l a)
      → (startup_loop limit l).1 ≡ err timeout_elapsed
  unfolding startup_loop
  startup_timeout limit l t w = elim (timeout-cases limit (receiver.receive l.receive_from).1) [
    | inl (a, v, e) ↦ absurd (w a v)
    | inr (e, _) ↦ ground arith
  ]

  pub startup_err :
      (h : LifespanHandler) (l : Link S R) (e : ArasError)
      → (startup_loop h.timeout l).1 ≡ err e
      → startup h l ≡ err e
  unfolding startup
  startup_err h l e f = rw (f, startup)

  -- The startup leaves the protocol enabled exactly when the application takes the startup event
  -- and answers in time that its startup is complete.
  pub startup_enabled_iff :
      (h : LifespanHandler) (l : Link S R)
      → ((s : StartedLifespanHandler S R) × (startup h l ≡ ok s) × (s.enabled ≡ true))
        ↔ (Takes l × Answers h.timeout l (ok new_startup_complete))
  unfolding startup_answer
  startup_enabled_iff h l = (forth, back)
    where
      forth :
          ((s : StartedLifespanHandler S R) × (startup h l ≡ ok s) × (s.enabled ≡ true))
          → Takes l × Answers h.timeout l (ok new_startup_complete)
      forth (s, e, on) = elim (Result-cases (sender.send l.send_to new_lifespan_startup).1) [
        | inl (tt, t) ↦
            let (a, w, f) = startup_outcome h.timeout l true t (startup-eq-ok h l s e ∙ ap ok on) in
            (t, subst (Answers h.timeout l) (startup_answer-true a f) w)
        | inr (r, t) ↦
            let off : ok false ≡ ok true =
              sym (startup_not_taken h.timeout l (λ u. cc)) ∙ startup-eq-ok h l s e ∙ ap ok on in
            cc off
      ]

      back :
          Takes l × Answers h.timeout l (ok new_startup_complete)
          → ((s : StartedLifespanHandler S R) × (startup h l ≡ ok s) × (s.enabled ≡ true))
      back (t, w) = startup_of_loop h l true (taken_answer h.timeout l _ t w)

  -- The startup goes on without the protocol exactly when the application does not take the startup
  -- event, or takes it and returns in time without an error and without an answer.
  pub startup_disabled_iff :
      (h : LifespanHandler) (l : Link S R)
      → ((s : StartedLifespanHandler S R) × (startup h l ≡ ok s) × (s.enabled ≡ false))
        ↔ ((¬ Takes l) ⊎ (Takes l × Answers h.timeout l (err completed)))
  unfolding startup_answer
  startup_disabled_iff h l = (forth, back)
    where
      forth :
          ((s : StartedLifespanHandler S R) × (startup h l ≡ ok s) × (s.enabled ≡ false))
          → (¬ Takes l) ⊎ (Takes l × Answers h.timeout l (err completed))
      forth (s, e, off) = elim (Result-cases (sender.send l.send_to new_lifespan_startup).1) [
        | inl (tt, t) ↦
            let (a, w, f) =
              startup_outcome h.timeout l false t (startup-eq-ok h l s e ∙ ap ok off) in
            inr (t, subst (Answers h.timeout l) (startup_answer-false a f) w)
        | inr (r, t) ↦ inl (λ u. cc)
      ]

      back :
          (¬ Takes l) ⊎ (Takes l × Answers h.timeout l (err completed))
          → ((s : StartedLifespanHandler S R) × (startup h l ≡ ok s) × (s.enabled ≡ false))
      back (inl t) = startup_of_loop h l false (startup_not_taken h.timeout l t)
      back (inr (t, w)) = startup_of_loop h l false (taken_answer h.timeout l _ t w)

  -- If the application takes the startup event and no answer comes in time, the startup fails with a
  -- timeout.
  startup_times_out :
      (h : LifespanHandler) (l : Link S R)
      → Takes l
      → ((a : CommunicationResult AsgiSendEvent) → ¬ Answers h.timeout l a)
      → startup h l ≡ err timeout_elapsed
  startup_times_out h l t w = startup_err h l _ (startup_timeout h.timeout l t w)

  -- If the application takes the startup event and answers in time that its startup failed, the
  -- startup fails with its message.
  startup_refused :
      (h : LifespanHandler) (l : Link S R) (m : Str)
      → Takes l
      → Answers h.timeout l (ok (new_startup_failed m))
      → startup h l ≡ err (Errors.startup_failed m)
  unfolding startup_answer
  startup_refused h l m t w = startup_err h l _ (taken_answer h.timeout l _ t w)

  -- If the application takes the startup event and exits in time with an error, the startup fails with
  -- that error.
  startup_crashed :
      (h : LifespanHandler) (l : Link S R) (e : ApplicationError)
      → Takes l
      → Answers h.timeout l (err (failed e))
      → startup h l ≡ err (application_error e.message)
  unfolding startup_answer
  startup_crashed h l e t w = startup_err h l _ (taken_answer h.timeout l _ t w)

  -- The shutdown of an enabled protocol succeeds exactly when the application takes the shutdown
  -- event and answers in time that its shutdown is complete.
  pub shutdown_ok_iff :
      (s : StartedLifespanHandler S R)
      → s.enabled ≡ true
      → ((shutdown s).1 ≡ ok tt) ↔ (
          ((sender.send s.link.send_to new_lifespan_shutdown).1 ≡ ok tt)
          × Arrives s.timeout (receiver.receive s.link.receive_from).1 (ok new_shutdown_complete))
  unfolding shutdown
  shutdown_ok_iff s on = (forth, back)
    where
      forth :
          (shutdown s).1 ≡ ok tt
          → ((sender.send s.link.send_to new_lifespan_shutdown).1 ≡ ok tt)
            × Arrives s.timeout (receiver.receive s.link.receive_from).1 (ok new_shutdown_complete)
      forth e = elim (Result-cases (sender.send s.link.send_to new_lifespan_shutdown).1) [
        | inl (tt, t) ↦ elim (timeout-cases s.timeout (receiver.receive s.link.receive_from).1) [
          | inl (a, w, f) ↦ (
            t,
            subst (Arrives s.timeout (receiver.receive s.link.receive_from).1)
                (shutdown_answer_ok a (ground arith)) w,
          )
          | inr (f, _) ↦ ground arith
        ]
        | inr (r, t) ↦ ground arith
      ]

      back :
          ((sender.send s.link.send_to new_lifespan_shutdown).1 ≡ ok tt)
            × Arrives s.timeout (receiver.receive s.link.receive_from).1 (ok new_shutdown_complete)
          → (shutdown s).1 ≡ ok tt
      back (t, w) =
          ground (arith, timeout_of_Arrives s.timeout (receiver.receive s.link.receive_from).1 _ w)
