-- ===== src/Http/Failing.antt =====
-- http.rs: when `make_response` fails, and with which error.
use trap.Shared.{ℕ, ◌≡◌, refl, subst, inl, inr, ok, err}
use trap.Asgi.Events.{HttpResponseStartEvent}
use trap.Asgi.Spec.{AsgiSendEvent, http_response_start}
use trap.Errors.{Debug}
use trap.Communication.Interface.{
  ReceiveFromAsgiApp, CommunicationResult, ApplicationResult, application_result_into,
}
use trap.Communication.Waiting.{Arrives, timeout-cases, timeout_of_Arrives}
use trap.Http.Library.{HttpCrate, Response}
use trap.Http.Response.{ResponseBody, build_response, make_response}

module _ {R : Type 0} ⦃receiver : ReceiveFromAsgiApp R⦄ ⦃debug : Debug AsgiSendEvent⦄
    ⦃http : HttpCrate⦄ where
  built_start :
      (limit : ℕ) (r : R) (a : CommunicationResult AsgiSendEvent)
      (response : Response (ResponseBody R))
      → build_response limit r a ≡ ok response
      → (e : HttpResponseStartEvent) × (a ≡ ok (http_response_start e))
  unfolding build_response
  built_start limit r (ok (http_response_start e)) response h = (e, refl)
  built_start limit r (ok _) response h = absurd (cc h)
  built_start limit r (err _) response h = absurd (cc h)

  -- There is a response only if the first event of the application is there in time and starts one.
  pub make_response_starts :
      (limit : ℕ) (r : R) (response : Response (ResponseBody R))
      → make_response limit r ≡ ok response
      → (e : HttpResponseStartEvent) × Arrives limit
          (receiver.receive r).1
          (ok (http_response_start e))
  unfolding make_response
  make_response_starts limit r response h = elim (timeout-cases limit (receiver.receive r).1) [
    | inl (a, w, e) ↦
        let (event, e') =
          built_start limit (receiver.receive r).0 a response (rw (e, make_response) at h) in
        (event, subst (Arrives limit (receiver.receive r).1) e' w)
    | inr (e, _) ↦ absurd (cc (rw (e, make_response) at h))
  ]

  -- If the application exits in time instead of sending its first event, there is no response, and the
  -- error says how it exited.
  make_response_exited :
      (limit : ℕ) (r : R) (e : ApplicationResult)
      → Arrives limit (receiver.receive r).1 (err e)
      → make_response limit r ≡ err (application_result_into e)
  unfolding make_response application_result_into
  make_response_exited limit r e w =
      rw (timeout_of_Arrives limit (receiver.receive r).1 _ w, make_response)
