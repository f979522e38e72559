-- ===== src/Websocket/Relay.antt =====
-- websocket.rs: the whole loop of a connection as a relay.
use trap.Shared.{
  ℕ, ◌≡◌, refl, sym, ap, ◌∙◌, subst, ◌⊎◌, inl, inr, Option, none, some, List, [], ◌∷◌, ◌++◌,
  append_assoc, append-nil, concat, map, ok, arith,
}
use trap.Asgi.Events.{WebsocketSendEvent}
use trap.Asgi.Spec.{AsgiSendEvent, AsgiReceiveEvent, websocket_send}
use trap.Errors.{Debug}
use trap.Communication.Interface.{SendToAsgiApp, ReceiveFromAsgiApp, ready}
use trap.Websocket.Library.{OpCode, Frame, WebsocketCrate, FrameSocket}
use trap.Websocket.Builder.{build}
use trap.Websocket.Event.{Event, frame_received, event_of_frame}
use trap.Websocket.Machine.{
  State, starting, running, closed, Context, Choice, frame_ready, app_ready, react, on_event, round,
  run_loop,
}
use trap.Websocket.Loop.{Awaited-cases}
use trap.Websocket.Exchange.{without_pongs, IsOpen, Adds, WhenOpen}
use trap.Websocket.Passing.{Passed, read-Passed, receive-Passed}

State-IsOpen : (st : State) → (st ≡ closed) ⊎ IsOpen st
State-IsOpen starting = inr tt
State-IsOpen running = inr tt
State-IsOpen closed = inl refl

module _ {S R W : Type 0} ⦃sender : SendToAsgiApp S⦄ ⦃receiver : ReceiveFromAsgiApp R⦄
    ⦃socket : FrameSocket W⦄ ⦃ws : WebsocketCrate⦄ ⦃debug : Debug AsgiSendEvent⦄
    ⦃opcodes : Debug OpCode⦄ where
  -- What the rounds of a run read: the frames of the peer and the messages of the application.
  pub data Hears
      : List Choice
        → State
        → Context S R W
        → List Frame
        → List WebsocketSendEvent
        → Context S R W
        → Type 0 where
    silent : (st : State) (ctx : Context S R W) → Hears [] st ctx [] [] ctx
    peer :
        {cs : List Choice} {st st1 : State} {ctx ctx1 ctx' : Context S R W} {fs : List Frame}
        {ms : List WebsocketSendEvent} (f : Frame)
        → (socket.read_frame ctx.websocket).1 ≡ ok f
        → round frame_ready st ctx ≡ some (st1, ctx1)
        → Hears cs st1 ctx1 fs ms ctx'
        → Hears (frame_ready ∷ cs) st ctx (f ∷ fs) ms ctx'
    app :
        {cs : List Choice} {st st1 : State} {ctx ctx1 ctx' : Context S R W} {fs : List Frame}
        {ms : List WebsocketSendEvent} (t : ℕ) (m : WebsocketSendEvent)
        → (receiver.receive ctx.receive_from_app).1 ≡ ready t (ok (websocket_send m))
        → round app_ready st ctx ≡ some (st1, ctx1)
        → Hears cs st1 ctx1 fs ms ctx'
        → Hears (app_ready ∷ cs) st ctx fs (m ∷ ms) ctx'

  -- A run is a relay: each frame that it read was handed on as the event that it stands for, and each
  -- message of the application was written as the frames built of it, in order, and nothing else was
  -- but pongs.
  pub record Relays (cs : List Choice) (st : State) (ctx ctx' : Context S R W) : Type 0 where
    pub frames : List Frame
    pub messages : List WebsocketSendEvent
    pub events : List AsgiReceiveEvent
    pub built : List (List Frame)
    pub heard : Hears cs st ctx frames messages ctx'
    pub handed_on : map event_of_frame frames ≡ map frame_received events
    pub encoded : map (build ctx.frame_builder) messages ≡ map some built
    pub adds : Adds (concat built) events ctx ctx'

  Relays-none : (st : State) (ctx : Context S R W) → Relays [] st ctx ctx
  Relays-none st ctx = record {
    frames = [];
    messages = [];
    events = [];
    built = [];
    heard = silent st ctx;
    handed_on = refl;
    encoded = refl;
    adds = record {
      to_peer = sym (append-nil (without_pongs (socket.written ctx.websocket)));
      to_app = sym (append-nil (sender.delivered ctx.send_to_app));
      builder = refl;
    };
  }

  Adds-trans :
      (fs gs : List Frame) (ds es : List AsgiReceiveEvent) (a b c : Context S R W)
      → Adds fs ds a b
      → Adds gs es b c
      → Adds (fs ++ gs) (ds ++ es) a c
  Adds-trans fs gs ds es a b c v w = record {
    to_peer =
        w.to_peer
        ∙ ap (λ z. z ++ gs) v.to_peer
        ∙ append_assoc (without_pongs (socket.written a.websocket)) fs gs;
    to_app =
        w.to_app ∙ ap (λ z. z ++ es) v.to_app ∙ append_assoc (sender.delivered a.send_to_app) ds es;
    builder = w.builder ∙ v.builder;
  }

  Relays-step :
      (c : Choice) (cs : List Choice) (st st1 : State) (ctx ctx1 ctx' : Context S R W)
      → round c st ctx ≡ some (st1, ctx1)
      → Passed c ctx ctx1
      → Relays cs st1 ctx1 ctx'
      → Relays (c ∷ cs) st ctx ctx'
  Relays-step frame_ready cs st st1 ctx ctx1 ctx' r (f, e, k, l, v) rest = record {
    frames = f ∷ rest.frames;
    messages = rest.messages;
    events = e ∷ rest.events;
    built = rest.built;
    heard = peer f k r rest.heard;
    handed_on = rw (l, rest.handed_on) refl;
    encoded = subst (λ b. map (build b) rest.messages ≡ map some rest.built) v.builder rest.encoded;
    adds = Adds-trans [] (concat rest.built) (e ∷ []) rest.events ctx ctx1 ctx' v rest.adds;
  }
  Relays-step app_ready cs st st1 ctx ctx1 ctx' r (t, m, fs, k, b, v) rest = record {
    frames = rest.frames;
    messages = m ∷ rest.messages;
    events = rest.events;
    built = fs ∷ rest.built;
    heard = app t m k r rest.heard;
    handed_on = rest.handed_on;
    encoded =
        ap (λ x. x ∷ map (build ctx.frame_builder) rest.messages) b
        ∙ ap (λ z. some fs ∷ z)
            (subst (λ d. map (build d) rest.messages ≡ map some rest.built) v.builder rest.encoded);
    adds = Adds-trans fs (concat rest.built) [] rest.events ctx ctx1 ctx' v rest.adds;
  }

  on_event_open :
      (st : State) (event : Event) (ctx : Context S R W)
      → IsOpen st
      → on_event st event ctx ≡ react event ctx
  unfolding on_event
  on_event_open starting event ctx h = refl
  on_event_open running event ctx h = refl
  on_event_open closed event ctx h = absurd h

  round-Passed :
      (c : Choice) (st : State) (ctx : Context S R W)
      → IsOpen st
      → WhenOpen (Passed c ctx) (round c st ctx)
  unfolding round
  round-Passed frame_ready st ctx h =
      subst (WhenOpen (Passed frame_ready ctx)) (sym (on_event_open st _ _ h)) (read-Passed ctx)
  round-Passed app_ready st ctx h = elim (Awaited-cases (receiver.receive ctx.receive_from_app).1) [
    | inl e ↦ rw (e, round) tt
    | inr (t, r, e) ↦
        rw (e, round)
          (subst (WhenOpen (Passed app_ready ctx)) (sym (on_event_open st _ _ h))
            (receive-Passed ctx _ t r e))
  ]

  -- A closed connection stays closed.
  closed_stays :
      (cs : List Choice) (ctx ctx' : Context S R W) (st : State)
      → run_loop cs closed ctx ≡ some (st, ctx')
      → st ≡ closed
  unfolding run_loop
  closed_stays [] ctx ctx' st e = cc e
  closed_stays (c ∷ cs) ctx ctx' st e = cc e

  -- The round that a run begins with has left the connection open, if the run does.
  round_open :
      (c : Choice) (cs : List Choice) (st st' : State) (ctx ctx' : Context S R W)
      (o : Option (State × Context S R W))
      → ((st1 : State) (ctx1 : Context S R W)
          → IsOpen st1
          → run_loop cs st1 ctx1 ≡ some (st', ctx')
          → Relays cs st1 ctx1 ctx')
      → round c st ctx ≡ o
      → WhenOpen (Passed c ctx) o
      → (elim o [ none ↦ none | some (st1, ctx1) ↦ run_loop cs st1 ctx1 ]) ≡ some (st', ctx')
      → IsOpen st'
      → Relays (c ∷ cs) st ctx ctx'
  round_open c cs st st' ctx ctx' none ih r w e p = absurd (cc e)
  round_open c cs st st' ctx ctx' (some (st1, ctx1)) ih r w e p = elim (State-IsOpen st1) [
    | inl shut ↦ absurd (
        subst IsOpen
          (closed_stays cs ctx1 ctx' st'
            (subst (λ z. run_loop cs z ctx1 ≡ some (st', ctx')) shut e))
          p)
    | inr h ↦ Relays-step c cs st st1 ctx ctx1 ctx' r (w h) (ih st1 ctx1 h e)
  ]

  run_open :
      (cs : List Choice) (st st' : State) (ctx ctx' : Context S R W)
      → IsOpen st
      → run_loop cs st ctx ≡ some (st', ctx')
      → IsOpen st'
      → Relays cs st ctx ctx'
  unfolding run_loop
  run_open [] st st' ctx ctx' h e p = subst (Relays [] st ctx) (ground arith) (Relays-none st ctx)
  run_open (c ∷ cs) starting st' ctx ctx' h e p =
      round_open c cs starting st' ctx ctx' (round c starting ctx)
        (λ st1 ctx1 h1 e1. run_open cs st1 st' ctx1 ctx' h1 e1 p) refl
        (round-Passed c starting ctx tt) e p
  run_open (c ∷ cs) running st' ctx ctx' h e p =
      round_open c cs running st' ctx ctx' (round c running ctx)
        (λ st1 ctx1 h1 e1. run_open cs st1 st' ctx1 ctx' h1 e1 p) refl
        (round-Passed c running ctx tt) e p
  run_open (c ∷ cs) closed st' ctx ctx' h e p = absurd h

  -- As long as a connection has not been closed, whatever branches have resolved, its loop is a relay:
  -- every round has read a frame of the peer or a message of the application, each frame was handed on
  -- as the event that it stands for, each message was written as the frames that are built of it, both
  -- in order, and nothing else was handed on, nor written but pongs.
  pub run_loop-Relays :
      (cs : List Choice) (st : State) (ctx ctx' : Context S R W)
      → run_loop cs starting ctx ≡ some (st, ctx')
      → IsOpen st
      → Relays cs starting ctx ctx'
  run_loop-Relays cs st ctx ctx' e p = run_open cs starting st ctx ctx' tt e p
