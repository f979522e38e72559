-- ===== src/Communication/Delivery.antt =====
-- communication.rs: what the two channels deliver, whatever the server, the application and its task do
-- and in whatever order.
use trap.Shared.{
  ℕ, zero, suc, true, ◌≤◌, ◌≡◌, sym, ap, ◌∙◌, ◌⊎◌, inl, inr, false, Option, none, some, List, [],
  ◌∷◌, ◌++◌, length, Result, ok, err, arith,
}
use trap.Asgi.Spec.{AsgiSendEvent, AsgiReceiveEvent, new_http_disconnect}
use trap.Communication.Interface.{ApplicationResult, CommunicationResult}
use trap.Communication.Channel.{Channel}
use trap.Communication.Handle.{Outcome}
use trap.Communication.Factory.{
  Connected, DisconnectedClient, build, sent, received, closure_sent, closure_received, completion,
  failed_with, send, receive, send_closure, receive_closure, drop_app_ends, drop_sender,
  drop_receiver, task_over,
}

-- What each side has sent with success, and what the calls of each side to receive have returned.
pub record Log : Type 0 where
  pub server_sent : List AsgiReceiveEvent
  pub app_got : List AsgiReceiveEvent
  pub app_sent : List AsgiSendEvent
  pub server_got : List AsgiSendEvent

abbrev pub empty_log : Log
empty_log = record { server_sent = []; app_got = []; app_sent = []; server_got = [] }

abbrev pub disconnects : ℕ → List AsgiReceiveEvent
disconnects zero = []
disconnects (suc n) = new_http_disconnect ∷ disconnects n

-- The outcome of a call, against that of the channel.
abbrev pub Agrees :
    {B Q : Type 0} → CommunicationResult B → Option (Q × Result B (Unit {0})) → Q → Type 0
Agrees {B} out x q =
    ((b : B) × (out ≡ ok b) × (x ≡ some (q, ok b)))
    ⊎ ((r : ApplicationResult) × (out ≡ err r) × (x ≡ some (q, err tt)))

pub Agrees-ok :
    {B Q : Type 0} (b : B) (x : Option (Q × Result B (Unit {0}))) (q : Q)
    → Agrees {B = B} {Q = Q} (ok b) x q
    → x ≡ some (q, ok b)
Agrees-ok b x q (inl (b', e, f)) = f ∙ ap (λ z. some (q, ok z)) (sym (cc e))
Agrees-ok b x q (inr (r, e, f)) = absurd (cc e)

pub Agrees-err :
    {B Q : Type 0} (r : ApplicationResult) (x : Option (Q × Result B (Unit {0}))) (q : Q)
    → Agrees {B = B} {Q = Q} (err r) x q
    → x ≡ some (q, err tt)
Agrees-err r x q (inl (b, e, f)) = absurd (cc e)
Agrees-err r x q (inr (r', e, f)) = f

module _ {A S : Type 0} ⦃app : Channel AsgiReceiveEvent A⦄ ⦃server : Channel AsgiSendEvent S⦄ where
  -- What can have happened so far to channels of a size, call by call. A call of the server that waits
  -- for the application's result may be dropped, with the receiver that it holds.
  pub data Happens (size : ℕ) : Connected A S → Log → Type 0 where
    starts : Happens size (build size) empty_log
    server_sends :
        {c c' : Connected A S} {l : Log} (m : AsgiReceiveEvent)
        → Happens size c l
        → send m c ≡ some (c', ok tt)
        → Happens size c' (record l { server_sent = l.server_sent ++ m ∷ [] })
    server_send_fails :
        {c c' : Connected A S} {l : Log} (m : AsgiReceiveEvent) (r : ApplicationResult)
        → Happens size c l
        → send m c ≡ some (c', err r)
        → Happens size c' l
    server_receives :
        {c c' : Connected A S} {l : Log} (m : AsgiSendEvent)
        → Happens size c l
        → receive c ≡ some (c', ok m)
        → Happens size c' (record l { server_got = l.server_got ++ m ∷ [] })
    server_receive_fails :
        {c c' : Connected A S} {l : Log} (r : ApplicationResult)
        → Happens size c l
        → receive c ≡ some (c', err r)
        → Happens size c' l
    server_gives_up :
        {c : Connected A S} {l : Log}
        → Happens size c l
        → completion c ≡ none
        → Happens size (record c { handle = record c.handle { receiver = false } }) l
    app_sends :
        {c c' : Connected A S} {l : Log} (m : AsgiSendEvent)
        → Happens size c l
        → send_closure m c ≡ some (c', ok tt)
        → Happens size c' (record l { app_sent = l.app_sent ++ m ∷ [] })
    app_send_fails :
        {c c' : Connected A S} {l : Log} (m : AsgiSendEvent) (e : DisconnectedClient)
        → Happens size c l
        → send_closure m c ≡ some (c', err e)
        → Happens size c' l
    app_receives :
        {c c' : Connected A S} {l : Log} (m : AsgiReceiveEvent)
        → Happens size c l
        → receive_closure c ≡ some (c', m)
        → Happens size c' (record l { app_got = l.app_got ++ m ∷ [] })
    app_drops : {c : Connected A S} {l : Log} → Happens size c l → Happens size (drop_app_ends c) l
    sender_dropped :
        {c : Connected A S} {l : Log} → Happens size c l → Happens size (drop_sender c) l
    receiver_dropped :
        {c : Connected A S} {l : Log} → Happens size c l → Happens size (drop_receiver c) l
    task_ends :
        {c : Connected A S} {l : Log} (o : Outcome)
        → Happens size c l
        → Happens size (task_over o c) l

  -- What is sent is what was got and what is queued, in order, and the queues fit the size. To what the
  -- application has got, its receive function adds disconnects once the channel is empty and closed.
  pub record IsDelivering (size : ℕ) (c : Connected A S) (l : Log) : Type 0 where
    pub got : List AsgiReceiveEvent
    pub extra : ℕ
    pub heard : l.app_got ≡ got ++ disconnects extra
    pub to_app : l.server_sent ≡ got ++ app.queue c.to_app
    pub at_end : (extra ≡ 0) ⊎ ((app.closed c.to_app ≡ true) × (app.queue c.to_app ≡ []))
    pub to_server : l.app_sent ≡ l.server_got ++ server.queue c.to_server
    pub app_fits : length (app.queue c.to_app) ≤ size
    pub server_fits : length (server.queue c.to_server) ≤ size
    pub app_capacity : app.capacity c.to_app ≡ size
    pub server_capacity : server.capacity c.to_server ≡ size

  pub same :
      (size : ℕ) (c c' : Connected A S) (l : Log)
      → c'.to_app ≡ c.to_app
      → c'.to_server ≡ c.to_server
      → IsDelivering size c l
      → IsDelivering size c' l
  same size c c' l e f v = record {
    got = v.got;
    extra = v.extra;
    heard = v.heard;
    to_app = v.to_app ∙ ap (λ q. v.got ++ app.queue q) (sym e);
    at_end = rw e v.at_end;
    to_server = v.to_server ∙ ap (λ q. l.server_got ++ server.queue q) (sym f);
    app_fits = rw e v.app_fits;
    server_fits = rw f v.server_fits;
    app_capacity = rw e v.app_capacity;
    server_capacity = rw f v.server_capacity;
  }

  -- What a call of each kind has done to the channels.
  completion_keeps :
      (c c' : Connected A S) (r : ApplicationResult)
      → completion c ≡ some (c', r)
      → (c'.to_app ≡ c.to_app) × (c'.to_server ≡ c.to_server)
  unfolding completion
  completion_keeps c c' r h = ground arith

  failed_inv :
      {B : Type 0} (x : Option (Connected A S × ApplicationResult)) (c' : Connected A S)
      (out : CommunicationResult B)
      → failed_with x ≡ some (c', out)
      → (r : ApplicationResult) × (x ≡ some (c', r)) × (out ≡ err r)
  unfolding failed_with
  failed_inv none c' out h = absurd (cc h)
  failed_inv (some (c, r)) c' out h = (r, cc h, cc h)

  pub sent_inv :
      (c c' : Connected A S) (out : CommunicationResult (Unit {0}))
      (x : Option (A × Result (Unit {0}) (Unit {0})))
      → sent c x ≡ some (c', out)
      → (c'.to_server ≡ c.to_server) × Agrees out x c'.to_app
  unfolding sent
  sent_inv c c' out none h = absurd (cc h)
  sent_inv c c' out (some (q, ok u)) h = (ground arith, inl (u, ground arith, ground arith))
  sent_inv c c' out (some (q, err u)) h =
      let (r, f, o) = failed_inv (completion (record c { to_app = q })) c' out h in
      let (k, k') = completion_keeps (record c { to_app = q }) c' r f in
      (k', inr (r, o, ap (λ p. some (p, err tt)) (sym k)))

  pub received_inv :
      (c c' : Connected A S) (out : CommunicationResult AsgiSendEvent)
      (x : Option (S × Result AsgiSendEvent (Unit {0})))
      → received c x ≡ some (c', out)
      → (c'.to_app ≡ c.to_app) × Agrees out x c'.to_server
  unfolding received
  received_inv c c' out none h = absurd (cc h)
  received_inv c c' out (some (q, ok m)) h = (ground arith, inl (m, ground arith, ground arith))
  received_inv c c' out (some (q, err u)) h =
      let (r, f, o) = failed_inv (completion (record c { to_server = q })) c' out h in
      let (k, k') = completion_keeps (record c { to_server = q }) c' r f in
      (k, inr (r, o, ap (λ p. some (p, err tt)) (sym k')))

  pub closure_sent_ok :
      (c c' : Connected A S) (x : Option (S × Result (Unit {0}) (Unit {0})))
      → closure_sent c x ≡ some (c', ok tt)
      → (c'.to_app ≡ c.to_app) × (x ≡ some (c'.to_server, ok tt))
  unfolding closure_sent
  closure_sent_ok c c' none h = absurd (cc h)
  closure_sent_ok c c' (some (q, ok u)) h = (ground arith, ground arith)
  closure_sent_ok c c' (some (q, err u)) h = absurd (ground arith)

  pub closure_sent_err :
      (c c' : Connected A S) (e : DisconnectedClient)
      (x : Option (S × Result (Unit {0}) (Unit {0})))
      → closure_sent c x ≡ some (c', err e)
      → (c'.to_app ≡ c.to_app) × (x ≡ some (c'.to_server, err tt))
  unfolding closure_sent
  closure_sent_err c c' e none h = absurd (cc h)
  closure_sent_err c c' e (some (q, ok u)) h = absurd (ground arith)
  closure_sent_err c c' e (some (q, err u)) h = (ground arith, ground arith)

  -- The receive function returns the message that it takes, or a disconnect at the end.
  pub closure_received_inv :
      (c c' : Connected A S) (n : AsgiReceiveEvent)
      (x : Option (A × Result AsgiReceiveEvent (Unit {0})))
      → closure_received c x ≡ some (c', n)
      → (c'.to_server ≡ c.to_server)
        × ((x ≡ some (c'.to_app, ok n))
            ⊎ ((x ≡ some (c'.to_app, err tt)) × (n ≡ new_http_disconnect)))
  unfolding closure_received
  closure_received_inv c c' n none h = absurd (cc h)
  closure_received_inv c c' n (some (q, ok m)) h = (ground arith, inl (ground arith))
  closure_received_inv c c' n (some (q, err u)) h = (ground arith, inr (ground arith, ground arith))
