-- ===== src/Python/Delivered.antt =====
-- wrappers.rs over communication.rs: what becomes of a message that a Python application sends.
use trap.Shared.{
  ◌≡◌, refl, sym, ap, ◌∙◌, ◌⊎◌, inl, inr, true, Option, none, some, [], ◌∷◌, ◌++◌, Result, ok, err,
  arith,
}
use trap.Text.Utf8.{str}
use trap.Asgi.Spec.{AsgiSendEvent, AsgiReceiveEvent}
use trap.Communication.Channel.{Channel}
use trap.Communication.Factory.{Connected, send_closure, closure_sent}
use trap.Python.Library.{PyErr, PyCrate}
use trap.Python.Parse.{extract}
use trap.Python.Messages.{IsMessageOf, extract-IsMessageOf}
use trap.Python.Wrappers.{send_call, send_converted, answered}

module _ {P D A S : Type 0} (py : PyCrate P D) ⦃app : Channel AsgiReceiveEvent A⦄
    ⦃server : Channel AsgiSendEvent S⦄ where
  send_call_extracted :
      (e : AsgiSendEvent) (message : D) (c : Connected A S)
      → extract py (py.of_dict message) ≡ ok e
      → send_call py send_closure message c ≡ answered py (send_closure e c)
  unfolding send_call send_converted
  send_call_extracted e message c h = ap (send_converted py send_closure c) h

  -- What the call of Python's `send` with a message of the event does: it waits for room with the
  -- queue as it is, or queues the event, or finds the server gone.
  abbrev pub Delivers :
      AsgiSendEvent → Connected A S → Connected A S → Result (Unit {0}) PyErr → Type 0
  Delivers e c c' r =
      ((r ≡ ok tt) × (server.queue c'.to_server ≡ server.queue c.to_server ++ e ∷ []))
      ⊎ ((r ≡ err (py.io_error (str "Disconnected client")))
          × (c' ≡ c)
          × (server.closed c.to_server ≡ true))

  answered_lem :
      (e : AsgiSendEvent) (c c' : Connected A S) (r : Result (Unit {0}) PyErr)
      (x : Option (S × Result (Unit {0}) (Unit {0})))
      → server.send e c.to_server ≡ x
      → answered py (closure_sent c x) ≡ some (c', r)
      → Delivers e c c' r
  unfolding answered closure_sent
  answered_lem e c c' r none s h = absurd (cc h)
  answered_lem e c c' r (some (q, ok u)) s h =
      let (k, _, _) = server.sent e c.to_server q s in
      let f : c'.to_server ≡ q = ground arith in inl (ground arith, ap server.queue f ∙ k)
  answered_lem e c c' r (some (q, err u)) s h =
      let (k, l) = server.refused e c.to_server q s in
      let f : record c { to_server = q } ≡ c' = ground arith in
      inr (ground arith, sym f ∙ ap (λ z. record c { to_server = z }) l, k)

  -- A Python application that calls `send` with a message of an event, once the call is over, has put
  -- this very event at the back of the channel to the server; or the call has raised an `OSError`, the
  -- channel was closed and nothing has changed.
  pub send_call-IsMessageOf :
      (e : AsgiSendEvent) (message : D) (c c' : Connected A S) (r : Result (Unit {0}) PyErr)
      → IsMessageOf py message e
      → send_call py send_closure message c ≡ some (c', r)
      → Delivers e c c' r
  unfolding send_closure
  send_call-IsMessageOf e message c c' r m h =
      let x =
        extract-IsMessageOf py (py.of_dict message) message e (py.cast_mapping-of_dict message) m in
      answered_lem e c c' r (server.send e c.to_server) refl
        (sym (send_call_extracted e message c x) ∙ h)
