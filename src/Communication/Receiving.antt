-- ===== src/Communication/Receiving.antt =====
-- communication.rs: what the server can receive.
use trap.Shared.{
  ℕ, ◌≡◌, refl, sym, ap, ◌∙◌, true, some, List, [], ◌∷◌, ◌++◌, append-nil, ok, err, ◌⊎◌, inl, inr,
  Option, none,
}
use trap.Asgi.Spec.{AsgiSendEvent, AsgiReceiveEvent}
use trap.Communication.Interface.{ApplicationResult, CommunicationResult}
use trap.Communication.Channel.{Channel}
use trap.Communication.Factory.{Connected, receive, received}
use trap.Communication.Delivery.{Log, Happens, Agrees-ok, Agrees-err, received_inv}
use trap.Communication.Conserved.{Happens-IsDelivering}

List-cases : {M : Type 0} (q : List M) → (q ≡ []) ⊎ ((m : M) × (rest : List M) × (q ≡ m ∷ rest))
List-cases [] = inl refl
List-cases (m ∷ rest) = inr (m, rest, refl)

module _ {A S : Type 0} ⦃app : Channel AsgiReceiveEvent A⦄ ⦃server : Channel AsgiSendEvent S⦄ where
  -- What the server's `receive` can do, by what the server has not got of what the application has
  -- sent: it waits, or it gives the first of the rest, or it reports the application's end.
  abbrev pub Waits : Connected A S → Log → Type 0
  Waits c l = (receive c ≡ none) × (l.app_sent ≡ l.server_got)

  abbrev pub Gives : Connected A S → Log → Type 0
  Gives c l =
      (m : AsgiSendEvent) × (c' : Connected A S) × (receive c ≡ some (c', ok m))
      × (l.app_sent ≡ l.server_got ++ m ∷ server.queue c'.to_server)

  abbrev pub Ends : Connected A S → Log → Type 0
  Ends c l =
      (r : ApplicationResult) × (c' : Connected A S) × (receive c ≡ some (c', err r))
      × (l.app_sent ≡ l.server_got)
      × (server.closed c.to_server ≡ true)

  receive_nothing :
      (c : Connected A S) (l : Log) (x : Option (Connected A S × CommunicationResult AsgiSendEvent))
      → server.queue c.to_server ≡ []
      → l.app_sent ≡ l.server_got ++ server.queue c.to_server
      → receive c ≡ x
      → Waits c l ⊎ Gives c l ⊎ Ends c l
  unfolding receive
  receive_nothing c l none n d e =
      inl (e, d ∙ ap (λ z. l.server_got ++ z) n ∙ append-nil l.server_got)
  receive_nothing c l (some (c', ok m)) n d e =
      let (k, a) = received_inv c c' (ok m) (server.recv c.to_server) e in
      let (b, _) =
        server.received m c.to_server c'.to_server
          (Agrees-ok m (server.recv c.to_server) c'.to_server a) in
      absurd (cc (sym n ∙ b))
  receive_nothing c l (some (c', err r)) n d e =
      let (k, a) = received_inv c c' (err r) (server.recv c.to_server) e in
      let (b, t, _) =
        server.ended c.to_server c'.to_server
          (Agrees-err r (server.recv c.to_server) c'.to_server a) in
      inr (inr (r, c', e, d ∙ ap (λ z. l.server_got ++ z) n ∙ append-nil l.server_got, t))

  receive_some :
      (c : Connected A S) (l : Log) (m : AsgiSendEvent) (rest : List AsgiSendEvent)
      → server.queue c.to_server ≡ m ∷ rest
      → l.app_sent ≡ l.server_got ++ server.queue c.to_server
      → Gives c l
  unfolding receive received
  receive_some c l m rest n d =
      let (q, r) = server.recv_next m rest c.to_server n in
      let (b, _) = server.received m c.to_server q r in
      (m, record c { to_server = q }, ap (received c) r, d ∙ ap (λ z. l.server_got ++ z) b)

  -- After whatever calls, the server's `receive` returns at once with the oldest event that the server
  -- has not got, if the application has sent any such event; it waits only if the server has got all of
  -- them; and it reports the application's end only if the server has got all of them and the channel
  -- is closed.
  pub Happens-receive :
      (size : ℕ) (c : Connected A S) (l : Log) → Happens size c l → Waits c l ⊎ Gives c l ⊎ Ends c l
  Happens-receive size c l h =
      let v = Happens-IsDelivering size h in
      elim (List-cases (server.queue c.to_server)) [
        | inl n ↦ receive_nothing c l (receive c) n v.to_server refl
        | inr (m, rest, n) ↦ inr (inl (receive_some c l m rest n v.to_server))
      ]
