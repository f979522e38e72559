-- ===== src/Http/Handling.antt =====
-- http.rs: the events of a whole exchange, and when reading a body succeeds.
use trap.Shared.{
  ℕ, ◌≤◌, ◌≡◌, refl, sym, ◌∙◌, ◌⊎◌, inl, inr, none, some, Bool, true, false, [], ok, err, is_ok,
  arith,
}
use trap.Text.Utf8.{Bytes}
use trap.Asgi.Spec.{AsgiSendEvent, AsgiReceiveEvent, new_http_request, new_http_disconnect}
use trap.Errors.{ArasResult, Debug}
use trap.Communication.Interface.{delivered_after, SendToAsgiApp, ReceiveFromAsgiApp, Link}
use trap.Communication.Waiting.{timeout_of_Arrives}
use trap.Http.Library.{HttpCrate, Response, BodyStream, end, part, broken}
use trap.Http.Request.{is_none_or_positive, arrival, send_request, read_loop, read_body}
use trap.Http.Response.{ResponseBody, make_response}
use trap.Http.Handler.{
  HttpHandler, Order, request_first, response_first, interrupted, try_join, handle,
}
use trap.Http.Framing.{
  HasHonestHints, SendsWith, Sends, Sends-SendsWith, part_sent, read_body-SendsWith,
}
use trap.Http.Interruption.{interrupted-SendsWith}

module _ {S : Type 0} ⦃sender : SendToAsgiApp S⦄ where
  -- The state that the reading leaves when both futures are joined.
  try_join-cases :
      {A : Type 0} (order : Order) (request : S × ArasResult (Unit {0})) (dropped : ℕ → S)
      (response : ArasResult A)
      → let r = try_join order request dropped response in
        ((k : ℕ) × (r.0 ≡ dropped k) × (is_ok r.1 ≡ false))
        ⊎ ((r.0 ≡ request.0) × (is_ok r.1 ≡ true → is_ok request.1 ≡ true))
  unfolding try_join
  try_join-cases (response_first k) request dropped (err e) = inl (k, refl, refl)
  try_join-cases (response_first k) (s, err e) dropped (ok a) = inr (refl, λ x. x)
  try_join-cases (response_first k) (s, ok _) dropped (ok a) = inr (refl, λ x. x)
  try_join-cases request_first (s, err e) dropped response = inr (refl, λ x. x)
  try_join-cases request_first (s, ok _) dropped response = inr (refl, λ x. refl)

-- A stream that gives its parts and its end in time.
abbrev pub IsTimely : ℕ → BodyStream → Type 0
IsTimely limit (end none) = ⊥
IsTimely limit (end (some t)) = t ≤ limit
IsTimely limit (part none b u rest) = ⊥
IsTimely limit (part (some t) b u rest) = (t ≤ limit) × IsTimely limit rest
IsTimely limit (broken t text rest) = ⊥

-- An application that takes every event.
abbrev pub TakesAll : (S : Type 0) → ⦃sender : SendToAsgiApp S⦄ → Type 0
TakesAll S ⦃sender⦄ = (s : S) (event : AsgiReceiveEvent) → (sender.send s event).1 ≡ ok tt

module _ {S : Type 0} ⦃sender : SendToAsgiApp S⦄ where
  follows :
      (stream : BodyStream) (s s' : S) (done done' : Bool)
      → (done' ≡ true → done ≡ true)
      → SendsWith stream s s' done
      → SendsWith stream s s' done'
  follows stream s s' done done' f (es, d, framed, whole) = (es, d, framed, λ o. whole (f o))

  send_request_taken : TakesAll S → (b : Bytes) (m : Bool) (s : S) → (send_request b m s).1 ≡ ok tt
  unfolding send_request
  send_request_taken h b m s = ground (arith, h s (new_http_request b m))

  timely_end :
      (limit t : ℕ) (m : Bool) (s : S)
      → TakesAll S
      → t ≤ limit
      → (read_loop limit m (end (some t)) s).1 ≡ ok tt
  unfolding read_loop
  timely_end limit t true s h p =
      rw (timeout_of_Arrives limit (arrival (some t)) tt (t, p, refl), read_loop)
        (send_request_taken h [] false s)
  timely_end limit t false s h p =
      rw (timeout_of_Arrives limit (arrival (some t)) tt (t, p, refl), read_loop)

  timely_loop :
      (limit : ℕ) (stream : BodyStream) (m : Bool) (s : S)
      → TakesAll S
      → IsTimely limit stream
      → (read_loop limit m stream s).1 ≡ ok tt
  timely_loop limit (end (some t)) m s h p = timely_end limit t m s h p
  timely_loop limit (end none) m s h p = absurd p
  timely_loop limit (part (some t) b u rest) m s h (p, ps) =
      rw
        (part_sent limit m (some t) b u rest s
          (timeout_of_Arrives limit (arrival (some t)) tt (t, p, refl))
          (send_request_taken h b (is_none_or_positive u) s))
        (timely_loop limit rest (is_none_or_positive u) _ h ps)
  timely_loop limit (part none b u rest) m s h p = absurd p
  timely_loop limit (broken t text rest) m s h p = absurd p

  -- A body whose parts and end are there in time is read without an error by an application that
  -- takes every event.
  pub read_body_total :
      (limit : ℕ) (stream : BodyStream) (s : S)
      → TakesAll S
      → IsTimely limit stream
      → (read_body limit stream s).1 ≡ ok tt
  unfolding read_body
  read_body_total limit stream s h p = timely_loop limit stream true s h p

module _ {S R : Type 0} ⦃sender : SendToAsgiApp S⦄ ⦃receiver : ReceiveFromAsgiApp R⦄
    ⦃debug : Debug AsgiSendEvent⦄ ⦃http : HttpCrate⦄ where
  pub handle-SendsWith :
      (order : Order) (h : HttpHandler) (l : Link S R) (stream : BodyStream)
      → HasHonestHints stream
      → (s : S) × SendsWith stream l.send_to s (is_ok (handle order h l stream).1)
        × (sender.delivered (handle order h l stream).0
            ≡ delivered_after
                (sender.delivered s)
                new_http_disconnect
                (sender.send s new_http_disconnect).1)
  unfolding handle
  handle-SendsWith order h l stream hs = (
    joined.0,
    elim (try_join-cases order request dropped response) [
      | inl (k, e, f) ↦ rw e (
          follows stream l.send_to (dropped k) false _ (λ o. sym f ∙ o)
            (interrupted-SendsWith k h.timeout stream l.send_to hs))
      | inr (e, f) ↦ rw e (
          follows stream l.send_to request.0 (is_ok request.1) _ f
            (read_body-SendsWith h.timeout stream l.send_to hs))
    ],
    sender.delivered-send joined.0 new_http_disconnect,
  )
    where
      request : S × ArasResult (Unit {0})
      request = read_body h.timeout stream l.send_to

      dropped : ℕ → S
      dropped k = interrupted k h.timeout true stream l.send_to

      response : ArasResult (Response (ResponseBody R))
      response = make_response h.timeout l.receive_from

      joined : S × ArasResult (Response (ResponseBody R))
      joined = try_join order request dropped response

  -- Of an exchange over a body whose size hints keep their contract, in whatever order its two
  -- futures resolve: the application is sent events of the request that announce more of the body
  -- and whose bodies are the bytes that it begins with, or the whole body closed by a last event, the
  -- whole body if there is a response; after these comes at most one event more, the disconnect, which
  -- is sent if the application takes it.
  pub handle-Sends :
      (order : Order) (h : HttpHandler) (l : Link S R) (stream : BodyStream)
      → HasHonestHints stream
      → (s : S) × Sends stream l.send_to s (is_ok (handle order h l stream).1)
        × (sender.delivered (handle order h l stream).0
            ≡ delivered_after
                (sender.delivered s)
                new_http_disconnect
                (sender.send s new_http_disconnect).1)
  handle-Sends order h l stream honest =
      let (s, sends, e) = handle-SendsWith order h l stream honest in
      (s, Sends-SendsWith stream l.send_to s _ sends, e)
