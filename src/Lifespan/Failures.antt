-- ===== src/Lifespan/Failures.antt =====
-- lifespan.rs: all the ways in which the startup fails.
use trap.Shared.{◌≡◌, sym, ◌∙◌, ap, ◌↔◌, ◌⊎◌, inl, inr, ok, err, Result-cases, arith}
use trap.Asgi.Spec.{AsgiSendEvent, startup_complete, startup_failed, new_lifespan_startup}
use trap.Errors
use trap.Errors.{Debug, ArasError, timeout_elapsed, application_error, unexpected_asgi_message}
use trap.Text.Utf8.{str}
use trap.Communication.Interface.{
  completed, unexpected, failed, CommunicationResult, SendToAsgiApp, ReceiveFromAsgiApp, Link,
}
use trap.Communication.Waiting.{timeout-cases}
use trap.Lifespan.Handler.{LifespanHandler, startup_answer, startup_loop, startup}
use trap.Lifespan.Answers.{
  Takes, Answers, startup_err, taken_answer, startup_timeout, startup_not_taken,
}

-- An answer to the startup event that is about something else.
abbrev pub IsForeign : AsgiSendEvent → Type 0
IsForeign (startup_complete _) = ⊥
IsForeign (startup_failed _) = ⊥
IsForeign _ = Unit {0}

module _ ⦃debug : Debug AsgiSendEvent⦄ where
  -- Which answer makes the startup fail with which error.
  abbrev pub FailsWith : CommunicationResult AsgiSendEvent → ArasError → Type 0
  FailsWith (ok (startup_failed event)) e = e ≡ Errors.startup_failed event.message
  FailsWith (ok m) e = IsForeign m × (e ≡ unexpected_asgi_message (debug.debug m))
  FailsWith (err completed) e = ⊥
  FailsWith (err unexpected) e =
      e ≡ application_error (str "Application shutdown unexpectedly without sending a result")
  FailsWith (err (failed error)) e = e ≡ application_error error.message

  startup_answer-FailsWith :
      (a : CommunicationResult AsgiSendEvent) (e : ArasError)
      → startup_answer a ≡ err e
      → FailsWith a e
  unfolding startup_answer
  startup_answer-FailsWith (ok (startup_complete _)) e h = absurd (cc h)
  startup_answer-FailsWith (ok (startup_failed event)) e h = cc h
  startup_answer-FailsWith (ok m) e h = (tt, cc h)
  startup_answer-FailsWith (err completed) e h = absurd (cc h)
  startup_answer-FailsWith (err unexpected) e h = cc h
  startup_answer-FailsWith (err (failed error)) e h = cc h

  startup_answer_err :
      (a : CommunicationResult AsgiSendEvent) (e : ArasError)
      → FailsWith a e
      → startup_answer a ≡ err e
  unfolding startup_answer
  startup_answer_err (ok (startup_complete _)) e (i, h) = absurd i
  startup_answer_err (ok (startup_failed event)) e h = ap err (sym h)
  startup_answer_err (ok m) e (i, h) = ap err (sym h)
  startup_answer_err (err completed) e h = absurd h
  startup_answer_err (err unexpected) e h = ap err (sym h)
  startup_answer_err (err (failed error)) e h = ap err (sym h)

module _ {S R : Type 0} ⦃sender : SendToAsgiApp S⦄ ⦃receiver : ReceiveFromAsgiApp R⦄
    ⦃debug : Debug AsgiSendEvent⦄ where
  startup-eq-err :
      (h : LifespanHandler) (l : Link S R) (e : ArasError)
      → startup h l ≡ err e
      → (startup_loop h.timeout l).1 ≡ err e
  unfolding startup
  startup-eq-err h l e f = elim (Result-cases (startup_loop h.timeout l).1) [
    | inl (b, g) ↦ ground arith
    | inr (r, g) ↦ ground arith
  ]

  -- Why the startup fails: nothing comes in time, or an answer that makes it fail.
  abbrev pub Failing : LifespanHandler → Link S R → ArasError → Type 0
  Failing h l e =
      (((a : CommunicationResult AsgiSendEvent) → ¬ Answers h.timeout l a) × (e ≡ timeout_elapsed))
      ⊎ ((a : CommunicationResult AsgiSendEvent) × Answers h.timeout l a × FailsWith a e)

  -- The startup fails with an error exactly if the application takes the startup event and either
  -- nothing comes in time, and the error is a timeout, or there is in time the answer that the startup
  -- failed, with its message, an answer that is about something else, or the end of the application
  -- with an error or without a result.
  pub startup_fails_iff :
      (h : LifespanHandler) (l : Link S R) (e : ArasError)
      → (startup h l ≡ err e) ↔ (Takes l × Failing h l e)
  startup_fails_iff h l e = (forth, back)
    where
      forth : startup h l ≡ err e → Takes l × Failing h l e
      forth f = elim (Result-cases (sender.send l.send_to new_lifespan_startup).1) [
        | inr (r, t) ↦
            let k = startup_not_taken h.timeout l (λ u. cc) in
            absurd (cc (sym k ∙ startup-eq-err h l e f))
        | inl (tt, t) ↦ elim (timeout-cases h.timeout (receiver.receive l.receive_from).1) [
          | inl (a, w, g) ↦ (
            t,
            inr (
              a,
              w,
              startup_answer-FailsWith a e
                  (sym (taken_answer h.timeout l a t w) ∙ startup-eq-err h l e f),
            ),
          )
          | inr (g, n) ↦
              (t, inl (n, cc (sym (startup-eq-err h l e f) ∙ startup_timeout h.timeout l t n)))
        ]
      ]

      back : Takes l × Failing h l e → startup h l ≡ err e
      back (t, inl (n, g)) = startup_err h l e (startup_timeout h.timeout l t n ∙ ap err (sym g))
      back (t, inr (a, w, g)) =
          startup_err h l e (taken_answer h.timeout l a t w ∙ startup_answer_err a e g)
