-- ===== src/Communication/Exited.antt =====
-- communication.rs: what the server gets of an application whose task is over.
use trap.Shared.{
  ◌≡◌, refl, ap, ◌∙◌, ◌⊎◌, inl, inr, true, false, Option, none, some, List, [], ◌∷◌, ok, err,
}
use trap.Asgi.Spec.{AsgiSendEvent, AsgiReceiveEvent}
use trap.Communication.Interface.{ApplicationResult, CommunicationResult}
use trap.Communication.Channel.{Channel}
use trap.Communication.Handle.{
  Outcome, ApplicationHandle, new_handle, result_of, wait_for_completion,
}
use trap.Communication.Factory.{
  Connected, send, sent, receive, received, completion, failed_with, drop_app_ends, task_over,
}

-- A call of one of the server's two ends, and what it gives.
pub data Call : Type 0 where
  sends : AsgiReceiveEvent → Call
  receives : Call

pub data Answer : Type 0 where
  sent_with : CommunicationResult (Unit {0}) → Answer
  received_with : CommunicationResult AsgiSendEvent → Answer

-- An application that is over takes nothing; what it has sent is still there, in order, and after that
-- there is its result.
abbrev pub answers : ApplicationResult → List AsgiSendEvent → List Call → List Answer
answers r ms [] = []
answers r ms (sends m ∷ calls) = sent_with (err r) ∷ answers r ms calls
answers r [] (receives ∷ calls) = received_with (err r) ∷ answers r [] calls
answers r (m ∷ ms) (receives ∷ calls) = received_with (ok m) ∷ answers r ms calls

-- The handle as it was made, or with the result in its cache.
abbrev Settled : Outcome → ApplicationHandle → Type 0
Settled o h =
    (h ≡ new_handle) ⊎ (h ≡ record { cached_result = some (result_of o); receiver = false })

wait_lem :
    (o : Outcome) (h : ApplicationHandle)
    → Settled o h
    → (h' : ApplicationHandle) × Settled o h' × (wait_for_completion o h ≡ (h', result_of o))
unfolding wait_for_completion
wait_lem o h (inl e) =
    (record { cached_result = some (result_of o); receiver = false }, inr refl, rw e refl)
wait_lem o h (inr e) = (h, inr e, rw e refl)

module _ {A S : Type 0} ⦃app : Channel AsgiReceiveEvent A⦄ ⦃server : Channel AsgiSendEvent S⦄ where
  and_send :
      Option (Connected A S × CommunicationResult (Unit {0})) → Option (Connected A S × Answer)
  and_send none = none
  and_send (some (c, r)) = some (c, sent_with r)

  and_receive :
      Option (Connected A S × CommunicationResult AsgiSendEvent) → Option (Connected A S × Answer)
  and_receive none = none
  and_receive (some (c, r)) = some (c, received_with r)

  unfoldable one_call : Call → Connected A S → Option (Connected A S × Answer)
  unfolding and_send and_receive
  one_call (sends m) c = and_send (send m c)
  one_call receives c = and_receive (receive c)

  then_calls :
      Option (Connected A S × Answer)
      → (Connected A S → Option (List Answer))
      → Option (List Answer)
  then_calls none next = none
  then_calls (some (c, a)) next = elim (next c) [ none ↦ none | some rest ↦ some (a ∷ rest) ]

  -- The calls one after another; `none` if one of them waits.
  unfoldable pub all_calls : List Call → Connected A S → Option (List Answer)
  unfolding one_call then_calls
  all_calls [] c = some []
  all_calls (call ∷ calls) c = then_calls (one_call call c) (all_calls calls)

  -- The task is over with an outcome, and has left messages.
  abbrev IsOver : Outcome → List AsgiSendEvent → Connected A S → Type 0
  IsOver o ms c =
      (c.outcome ≡ some o)
      × (app.closed c.to_app ≡ true)
      × (server.closed c.to_server ≡ true)
      × (server.queue c.to_server ≡ ms)
      × Settled o c.handle

  completion_lem :
      (o : Outcome) (c : Connected A S)
      → c.outcome ≡ some o
      → Settled o c.handle
      → (h' : ApplicationHandle) × Settled o h'
        × (completion c ≡ some (record c { handle = h' }, result_of o))
  unfolding completion
  completion_lem o c e s =
      let (h', s', w) = wait_lem o c.handle s in
      (
        h',
        s',
        rw (e, w, completion)
            (ap (λ x. some (record c { handle = h'; outcome = x }, result_of o)) e),
      )

  send-IsOver :
      (o : Outcome) (ms : List AsgiSendEvent) (m : AsgiReceiveEvent) (c : Connected A S)
      → IsOver o ms c
      → (c' : Connected A S) × IsOver o ms c' × (send m c ≡ some (c', err (result_of o)))
  unfolding send sent failed_with
  send-IsOver o ms m c (e, a, b, q, s) =
      let (h', s', w) = completion_lem o c e s in
      (record c { handle = h' }, (e, a, b, q, s'), rw (app.send_closed m c.to_app a, w, send) refl)

  receive_at_end :
      (o : Outcome) (c : Connected A S)
      → IsOver o [] c
      → (c' : Connected A S) × IsOver o [] c' × (receive c ≡ some (c', err (result_of o)))
  unfolding receive received failed_with
  receive_at_end o c (e, a, b, q, s) =
      let (h', s', w) = completion_lem o c e s in
      (
        record c { handle = h' },
        (e, a, b, q, s'),
        rw (server.recv_closed c.to_server q b, w, receive) refl,
      )

  receive_next :
      (o : Outcome) (m : AsgiSendEvent) (ms : List AsgiSendEvent) (c : Connected A S)
      → IsOver o (m ∷ ms) c
      → (c' : Connected A S) × IsOver o ms c' × (receive c ≡ some (c', ok m))
  unfolding receive received
  receive_next o m ms c (e, a, b, q, s) =
      let (q', g) = server.recv_next m ms c.to_server q in
      let (t, _) = server.received m c.to_server q' g in
      (
        record c { to_server = q' },
        (e, a, server.closed-recv m c.to_server q' g ∙ b, cc (t, q), s),
        rw (g, receive) refl,
      )

  all_calls-IsOver :
      (o : Outcome) (calls : List Call) (ms : List AsgiSendEvent) (c : Connected A S)
      → IsOver o ms c
      → all_calls calls c ≡ some (answers (result_of o) ms calls)
  unfolding all_calls
  all_calls-IsOver o [] ms c h = refl
  all_calls-IsOver o (sends m ∷ calls) ms c h =
      let (c', h', e) = send-IsOver o ms m c h in
      rw (e, all_calls-IsOver o calls ms c' h', all_calls) refl
  all_calls-IsOver o (receives ∷ calls) [] c h =
      let (c', h', e) = receive_at_end o c h in
      rw (e, all_calls-IsOver o calls [] c' h', all_calls) refl
  all_calls-IsOver o (receives ∷ calls) (m ∷ ms) c h =
      let (c', h', e) = receive_next o m ms c h in
      rw (e, all_calls-IsOver o calls ms c' h', all_calls) refl

  -- Once the task of an application is over, with any outcome, and its result has not been asked for
  -- before, no call of the server's ends waits: every send is refused with the application's result, and
  -- receiving gives what the application has still sent, in order, and then its result, for ever.
  pub all_calls-task_over :
      (o : Outcome) (calls : List Call) (c : Connected A S)
      → c.handle ≡ new_handle
      → all_calls calls (task_over o (drop_app_ends c))
        ≡ some (answers (result_of o) (server.queue c.to_server) calls)
  unfolding task_over drop_app_ends
  all_calls-task_over o calls c e = all_calls-IsOver o calls (server.queue c.to_server) _ (
    refl,
    app.closed-close c.to_app,
    server.closed-close c.to_server,
    server.queue-close c.to_server,
    inl e,
  )
