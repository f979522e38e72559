-- ===== src/Http/Handler.antt =====
-- `HTTPHandler::handle`: the request is read and the response awaited at the same time.
use trap.Shared.{ℕ, zero, suc, Bool, true, ok, err}
use trap.Asgi.Spec.{AsgiSendEvent, new_http_disconnect}
use trap.Errors.{ArasResult, Debug}
use trap.Communication.Interface.{SendToAsgiApp, ReceiveFromAsgiApp, Link, timeout}
use trap.Http.Library.{HttpCrate, Response, BodyStream, end, part, broken}
use trap.Http.Request.{is_none_or_positive, arrival, send_request, finish_body, read_body}
use trap.Http.Response.{ResponseBody, make_response}

pub record HttpHandler : Type 0 where
  pub timeout : ℕ

-- Which of the two futures of `tokio::try_join!` resolves first. Where it is the response, `k` sends
-- of `read_body` have been completed by then.
pub data Order : Type 0 where
  request_first : Order
  response_first : ℕ → Order

module _ {S : Type 0} ⦃sender : SendToAsgiApp S⦄ where
  -- `read_body`, dropped after `k` sends.
  unfoldable pub interrupted : ℕ → ℕ → Bool → BodyStream → S → S
  unfolding send_request finish_body timeout
  interrupted zero limit more_body stream s = s
  interrupted (suc k) limit more_body (end t) s = elim (timeout limit (arrival t)) [
    | ok _ ↦ (finish_body more_body s).0
    | err e ↦ s
  ]
  interrupted (suc k) limit more_body (broken t text rest) s = s
  interrupted (suc k) limit more_body (part t bytes upper rest) s =
      elim (timeout limit (arrival t)) [
        | ok _ ↦
            let (s', sent) = send_request bytes (is_none_or_positive upper) s in
            elim sent [
              | ok _ ↦ interrupted k limit (is_none_or_positive upper) rest s'
              | err e ↦ s'
            ]
        | err e ↦ s
      ]

  -- `tokio::try_join!`: the first error drops the other future; without an error both are awaited.
  unfoldable pub try_join :
      {A : Type 0} → Order → S × ArasResult (Unit {0}) → (ℕ → S) → ArasResult A → S × ArasResult A
  try_join (response_first k) request dropped (err e) = (dropped k, err e)
  try_join (response_first k) (s, err e) dropped (ok a) = (s, err e)
  try_join (response_first k) (s, ok _) dropped (ok a) = (s, ok a)
  try_join request_first (s, err e) dropped response = (s, err e)
  try_join request_first (s, ok _) dropped response = (s, response)

module _ {S R : Type 0} ⦃sender : SendToAsgiApp S⦄ ⦃receiver : ReceiveFromAsgiApp R⦄
    ⦃debug : Debug AsgiSendEvent⦄ ⦃http : HttpCrate⦄ where
  -- The event of the disconnect is sent whatever the outcome, and its own outcome is ignored.
  unfoldable pub handle :
      Order → HttpHandler → Link S R → BodyStream → S × ArasResult (Response (ResponseBody R))
  unfolding read_body interrupted make_response try_join
  handle order handler l stream =
      let (s, response) =
        try_join order (read_body handler.timeout stream l.send_to)
          (λ k. interrupted k handler.timeout true stream l.send_to)
          (make_response handler.timeout l.receive_from) in
      ((sender.send s new_http_disconnect).0, response)
