-- ===== src/Http/Request.antt =====
-- `HTTPHandler::read_body`: the request's body becomes a sequence of events.
use trap.Shared.{ℕ, Option, none, some, Bool, true, false, [], ◌++◌, ltb, ok, err, Run, ◌>>◌, pure}
use trap.Text.Utf8.{Bytes, str}
use trap.Asgi.Spec.{new_http_request}
use trap.Errors.{ArasError, custom}
use trap.Communication.Interface.{
  SendToAsgiApp, application_result_into, Awaited, ready, never, timeout,
}
use trap.Http.Library.{BodyStream, end, part, broken}

-- The time until an item of the stream is there, as a future.
abbrev pub arrival : Option ℕ → Awaited (Unit {0})
arrival none = never
arrival (some t) = ready t tt

-- `size_hint().1.is_none_or(|u| u > 0)`
abbrev pub is_none_or_positive : Option ℕ → Bool
is_none_or_positive none = true
is_none_or_positive (some u) = ltb 0 u

module _ {S : Type 0} ⦃sender : SendToAsgiApp S⦄ where
  -- `send_to_app.send(msg).await?`, on the sending handle alone
  unfoldable pub send_request : Bytes → Bool → Run S ArasError (Unit {0})
  unfolding application_result_into
  send_request data_part more s =
      let (s', sent) = sender.send s (new_http_request data_part more) in
      (s', elim sent [ ok u ↦ ok u | err e ↦ err (application_result_into e) ])

  -- The end of the stream: the body is closed by an empty event, unless the last part closed it.
  unfoldable pub finish_body : Bool → Run S ArasError (Unit {0})
  unfolding send_request
  finish_body more_body = elim more_body [ true ↦ send_request [] false | false ↦ pure tt ]

  -- `while let Some(part) = timeout(self.timeout, stream.next()).await?`
  unfoldable pub read_loop : ℕ → Bool → BodyStream → Run S ArasError (Unit {0})
  unfolding finish_body timeout
  read_loop limit more_body (end t) s = elim (timeout limit (arrival t)) [
    | ok _ ↦ finish_body more_body s
    | err e ↦ (s, err e)
  ]
  read_loop limit more_body (broken t text rest) s = elim (timeout limit (arrival t)) [
    | ok _ ↦ (s, err (custom (str "Failed to read body: " ++ text)))
    | err e ↦ (s, err e)
  ]
  read_loop limit more_body (part t bytes upper rest) s = elim (timeout limit (arrival t)) [
    | ok _ ↦
        (do
          send_request bytes (is_none_or_positive upper)
          read_loop limit (is_none_or_positive upper) rest)
          s
    | err e ↦ (s, err e)
  ]

  unfoldable pub read_body : ℕ → BodyStream → Run S ArasError (Unit {0})
  unfolding read_loop
  read_body limit stream = read_loop limit true stream
