-- ===== src/Communication/Conserved.antt =====
-- communication.rs: no message is lost, doubled or overtaken between the server and an application, and
-- the queues stay within the backpressure size.
use trap.Shared.{
  ℕ, zero, suc, true, inl, inr, append-nil, ◌≤◌, ◌<◌, ◌≡◌, refl, sym, ap, ◌∙◌, subst, false, some,
  List, [], ◌∷◌, ◌++◌, append_assoc, length, length-append, ok, err, arith,
}
use trap.Asgi.Spec.{AsgiSendEvent, AsgiReceiveEvent, new_http_disconnect}
use trap.Communication.Channel.{Channel}
use trap.Communication.Factory.{
  Connected, build, send, receive, send_closure, receive_closure, drop_app_ends, drop_sender,
  drop_receiver, task_over,
}
use trap.Communication.Delivery.{
  disconnects, Log, Happens, starts, server_sends, server_send_fails, server_receives,
  server_receive_fails, server_gives_up, app_sends, app_send_fails, app_receives, app_drops,
  sender_dropped, receiver_dropped, task_ends, IsDelivering, Agrees-ok, Agrees-err, same, sent_inv,
  received_inv, closure_sent_ok, closure_sent_err, closure_received_inv,
}

-- A queue that has grown by a message, and one that has given its first.
grown :
    {M : Type 0} (s g q q' : List M) (m : M) → q' ≡ q ++ m ∷ [] → s ≡ g ++ q → s ++ m ∷ [] ≡ g ++ q'
grown s g q q' m e h =
    ap (λ z. z ++ m ∷ []) h ∙ append_assoc g q (m ∷ []) ∙ ap (λ z. g ++ z) (sym e)

taken : {M : Type 0} (s g q q' : List M) (m : M) → q ≡ m ∷ q' → s ≡ g ++ q → s ≡ (g ++ m ∷ []) ++ q'
taken s g q q' m e h = h ∙ ap (λ z. g ++ z) e ∙ sym (append_assoc g (m ∷ []) q')

grown_fits :
    {M : Type 0} (q q' : List M) (m : M) (size : ℕ)
    → q' ≡ q ++ m ∷ []
    → length q < size
    → length q' ≤ size
grown_fits q q' m size e h =
    subst (λ z. length z ≤ size) (sym e) (rw (length-append q (m ∷ [])) (omega arith))

taken_fits :
    {M : Type 0} (q q' : List M) (m : M) (size : ℕ)
    → q ≡ m ∷ q'
    → length q ≤ size
    → length q' ≤ size
taken_fits q q' m size e h = let k = subst (λ z. length z ≤ size) e h in omega arith

disconnects-suc : (n : ℕ) → disconnects n ++ new_http_disconnect ∷ [] ≡ disconnects (suc n)
disconnects-suc zero = refl
disconnects-suc (suc n) = ap (λ z. new_http_disconnect ∷ z) (disconnects-suc n)

-- A channel that takes a message is not closed.
open_lem :
    {A : Type 0} ⦃app : Channel AsgiReceiveEvent A⦄ (m : AsgiReceiveEvent) (q q' : A)
    → app.closed q ≡ true
    → ¬ (app.send m q ≡ some (q', ok tt))
open_lem ⦃app⦄ m q q' d h = absurd (cc (sym (app.send_closed m q d) ∙ h))

module _ {A S : Type 0} ⦃app : Channel AsgiReceiveEvent A⦄ ⦃server : Channel AsgiSendEvent S⦄ where
  module _ (size : ℕ) (c c' : Connected A S) (l : Log) (v : IsDelivering size c l) where
    not_ended : ¬ ((app.closed c.to_app ≡ true) × (app.queue c.to_app ≡ [])) → v.extra ≡ 0
    not_ended n = elim v.at_end [ inl z ↦ z | inr d ↦ absurd (n d) ]

    to_app_grown :
        (m : AsgiReceiveEvent)
        → c'.to_server ≡ c.to_server
        → app.send m c.to_app ≡ some (c'.to_app, ok tt)
        → IsDelivering size c' (record l { server_sent = l.server_sent ++ m ∷ [] })
    to_app_grown m e h =
        let (q, r, k) = app.sent m c.to_app c'.to_app h in
        record {
          got = v.got;
          extra = v.extra;
          heard = v.heard;
          to_app =
              grown l.server_sent v.got (app.queue c.to_app) (app.queue c'.to_app) m q v.to_app;
          at_end = inl (not_ended (λ d. open_lem m c.to_app c'.to_app d.0 h));
          to_server = v.to_server ∙ ap (λ z. l.server_got ++ server.queue z) (sym e);
          app_fits =
              grown_fits (app.queue c.to_app) (app.queue c'.to_app) m size q
                (subst (λ z. length (app.queue c.to_app) < z) v.app_capacity r);
          server_fits = rw e v.server_fits;
          app_capacity = k ∙ v.app_capacity;
          server_capacity = rw e v.server_capacity;
        }

    to_app_taken :
        (m : AsgiReceiveEvent)
        → c'.to_server ≡ c.to_server
        → app.recv c.to_app ≡ some (c'.to_app, ok m)
        → IsDelivering size c' (record l { app_got = l.app_got ++ m ∷ [] })
    to_app_taken m e h =
        let (q, k) = app.received m c.to_app c'.to_app h in
        let z = not_ended (λ d. cc (sym q ∙ d.1)) in
        record {
          got = v.got ++ m ∷ [];
          extra = 0;
          heard =
              ap (λ x. x ++ m ∷ []) (v.heard ∙ ap (λ x. v.got ++ disconnects x) z)
              ∙ ap (λ x. x ++ m ∷ []) (append-nil v.got)
              ∙ sym (append-nil (v.got ++ m ∷ []));
          to_app =
              taken l.server_sent v.got (app.queue c.to_app) (app.queue c'.to_app) m q v.to_app;
          at_end = inl refl;
          to_server = v.to_server ∙ ap (λ z. l.server_got ++ server.queue z) (sym e);
          app_fits = taken_fits (app.queue c.to_app) (app.queue c'.to_app) m size q v.app_fits;
          server_fits = rw e v.server_fits;
          app_capacity = k ∙ v.app_capacity;
          server_capacity = rw e v.server_capacity;
        }

    to_server_grown :
        (m : AsgiSendEvent)
        → c'.to_app ≡ c.to_app
        → server.send m c.to_server ≡ some (c'.to_server, ok tt)
        → IsDelivering size c' (record l { app_sent = l.app_sent ++ m ∷ [] })
    to_server_grown m e h =
        let (q, r, k) = server.sent m c.to_server c'.to_server h in
        record {
          got = v.got;
          extra = v.extra;
          heard = v.heard;
          to_app = v.to_app ∙ ap (λ z. v.got ++ app.queue z) (sym e);
          at_end = rw e v.at_end;
          to_server =
              grown l.app_sent l.server_got (server.queue c.to_server) (server.queue c'.to_server) m
                q v.to_server;
          app_fits = rw e v.app_fits;
          server_fits =
              grown_fits (server.queue c.to_server) (server.queue c'.to_server) m size q
                (subst (λ z. length (server.queue c.to_server) < z) v.server_capacity r);
          app_capacity = rw e v.app_capacity;
          server_capacity = k ∙ v.server_capacity;
        }

    to_server_taken :
        (m : AsgiSendEvent)
        → c'.to_app ≡ c.to_app
        → server.recv c.to_server ≡ some (c'.to_server, ok m)
        → IsDelivering size c' (record l { server_got = l.server_got ++ m ∷ [] })
    to_server_taken m e h =
        let (q, k) = server.received m c.to_server c'.to_server h in
        record {
          got = v.got;
          extra = v.extra;
          heard = v.heard;
          to_app = v.to_app ∙ ap (λ z. v.got ++ app.queue z) (sym e);
          at_end = rw e v.at_end;
          to_server =
              taken l.app_sent l.server_got (server.queue c.to_server) (server.queue c'.to_server) m
                q v.to_server;
          app_fits = rw e v.app_fits;
          server_fits =
              taken_fits (server.queue c.to_server) (server.queue c'.to_server) m size q
                v.server_fits;
          app_capacity = rw e v.app_capacity;
          server_capacity = k ∙ v.server_capacity;
        }

    -- The application asks again at the end of its channel.
    to_app_ended :
        c'.to_server ≡ c.to_server
        → app.recv c.to_app ≡ some (c'.to_app, err tt)
        → IsDelivering size c' (record l { app_got = l.app_got ++ new_http_disconnect ∷ [] })
    to_app_ended e h =
        let (n, d, q) = app.ended c.to_app c'.to_app h in
        record {
          got = v.got;
          extra = suc v.extra;
          heard =
              ap (λ x. x ++ new_http_disconnect ∷ []) v.heard
              ∙ append_assoc v.got (disconnects v.extra) (new_http_disconnect ∷ [])
              ∙ ap (λ x. v.got ++ x) (disconnects-suc v.extra);
          to_app = v.to_app ∙ ap (λ z. v.got ++ app.queue z) (sym q);
          at_end = inr (rw q (d, n));
          to_server = v.to_server ∙ ap (λ z. l.server_got ++ server.queue z) (sym e);
          app_fits = rw q v.app_fits;
          server_fits = rw e v.server_fits;
          app_capacity = rw q v.app_capacity;
          server_capacity = rw e v.server_capacity;
        }

    -- Channels that keep their messages.
    kept :
        (app.closed c.to_app ≡ true → app.closed c'.to_app ≡ true)
        → app.queue c'.to_app ≡ app.queue c.to_app
        → server.queue c'.to_server ≡ server.queue c.to_server
        → app.capacity c'.to_app ≡ app.capacity c.to_app
        → server.capacity c'.to_server ≡ server.capacity c.to_server
        → IsDelivering size c' l
    kept o e f g k = record {
      got = v.got;
      extra = v.extra;
      heard = v.heard;
      to_app = v.to_app ∙ ap (λ z. v.got ++ z) (sym e);
      at_end = elim v.at_end [ inl z ↦ inl z | inr (d, n) ↦ inr (o d, e ∙ n) ];
      to_server = v.to_server ∙ ap (λ z. l.server_got ++ z) (sym f);
      app_fits = rw e v.app_fits;
      server_fits = rw f v.server_fits;
      app_capacity = g ∙ v.app_capacity;
      server_capacity = k ∙ v.server_capacity;
    }

  -- Whatever the calls have been, in whatever order, and with whatever failures and drops: the server's
  -- calls to receive have returned what the application has sent but for what is queued, in order; those
  -- of the application have returned what the server has sent but for what is queued, in order, and after
  -- that disconnects only, and these only if nothing is queued and the channel is closed; and each queue
  -- has at most the backpressure size.
  pub Happens-IsDelivering :
      (size : ℕ) {c : Connected A S} {l : Log} → Happens size c l → IsDelivering size c l
  unfolding build send receive send_closure receive_closure drop_app_ends drop_sender drop_receiver
      task_over
  Happens-IsDelivering size starts = record {
    got = [];
    extra = 0;
    heard = refl;
    to_app = sym (app.queue-bounded size);
    at_end = inl refl;
    to_server = sym (server.queue-bounded size);
    app_fits = rw (app.queue-bounded size) (omega arith);
    server_fits = rw (server.queue-bounded size) (omega arith);
    app_capacity = app.capacity-bounded size;
    server_capacity = server.capacity-bounded size;
  }
  Happens-IsDelivering size (server_sends {c = c} {c' = c'} {l = l} m h e) =
      let (k, a) = sent_inv c c' (ok tt) (app.send m c.to_app) e in
      to_app_grown size c c' l (Happens-IsDelivering size h) m k
        (Agrees-ok tt (app.send m c.to_app) c'.to_app a)
  Happens-IsDelivering size (server_send_fails {c = c} {c' = c'} {l = l} m r h e) =
      let (k, a) = sent_inv c c' (err r) (app.send m c.to_app) e in
      let (_, q) =
        app.refused m c.to_app c'.to_app (Agrees-err r (app.send m c.to_app) c'.to_app a) in
      same size c c' l q k (Happens-IsDelivering size h)
  Happens-IsDelivering size (server_receives {c = c} {c' = c'} {l = l} m h e) =
      let (k, a) = received_inv c c' (ok m) (server.recv c.to_server) e in
      to_server_taken size c c' l (Happens-IsDelivering size h) m k
        (Agrees-ok m (server.recv c.to_server) c'.to_server a)
  Happens-IsDelivering size (server_receive_fails {c = c} {c' = c'} {l = l} r h e) =
      let (k, a) = received_inv c c' (err r) (server.recv c.to_server) e in
      let (_, _, q) =
        server.ended c.to_server c'.to_server
          (Agrees-err r (server.recv c.to_server) c'.to_server a) in
      same size c c' l k q (Happens-IsDelivering size h)
  Happens-IsDelivering size (server_gives_up {c = c} {l = l} h e) =
      same size c (record c { handle = record c.handle { receiver = false } }) l refl refl
        (Happens-IsDelivering size h)
  Happens-IsDelivering size (app_sends {c = c} {c' = c'} {l = l} m h e) =
      let (k, a) = closure_sent_ok c c' (server.send m c.to_server) e in
      to_server_grown size c c' l (Happens-IsDelivering size h) m k a
  Happens-IsDelivering size (app_send_fails {c = c} {c' = c'} {l = l} m d h e) =
      let (k, a) = closure_sent_err c c' d (server.send m c.to_server) e in
      let (_, q) = server.refused m c.to_server c'.to_server a in
      same size c c' l k q (Happens-IsDelivering size h)
  Happens-IsDelivering size (app_receives {c = c} {c' = c'} {l = l} m h e) =
      let (k, a) = closure_received_inv c c' m (app.recv c.to_app) e in
      let v = Happens-IsDelivering size h in
      elim a [
        | inl r ↦ to_app_taken size c c' l v m k r
        | inr (r, d) ↦
            subst (λ x. IsDelivering size c' (record l { app_got = l.app_got ++ x ∷ [] })) (sym d)
              (to_app_ended size c c' l v k r)
      ]
  Happens-IsDelivering size (app_drops {c = c} {l = l} h) =
      kept size c (drop_app_ends c) l (Happens-IsDelivering size h) (λ d. app.closed-close c.to_app)
        (app.queue-close c.to_app) (server.queue-close c.to_server) (app.capacity-close c.to_app)
        (server.capacity-close c.to_server)
  Happens-IsDelivering size (sender_dropped {c = c} {l = l} h) =
      kept size c (drop_sender c) l (Happens-IsDelivering size h) (λ d. app.closed-close c.to_app)
        (app.queue-close c.to_app) refl (app.capacity-close c.to_app) refl
  Happens-IsDelivering size (receiver_dropped {c = c} {l = l} h) =
      kept size c (drop_receiver c) l (Happens-IsDelivering size h) (λ d. d) refl
        (server.queue-close c.to_server) refl (server.capacity-close c.to_server)
  Happens-IsDelivering size (task_ends {c = c} {l = l} o h) =
      same size c (task_over o c) l refl refl (Happens-IsDelivering size h)
