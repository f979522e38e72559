-- ===== src/Websocket/Ending.antt =====
-- websocket.rs: when the loop of a connection ends.
use mathlib.Core.Option
use trap.Shared.{◌≡◌, refl, sym, ap, ◌∙◌, ◌≢◌, Option, none, some, List, [], ◌∷◌, ◌++◌, ℕ}
use trap.Text.Utf8.{Str}
use trap.Asgi.Spec.{AsgiSendEvent}
use trap.Errors.{Debug}
use trap.Communication.Interface.{SendToAsgiApp, ReceiveFromAsgiApp}
use trap.Websocket.Library.{OpCode, WebsocketCrate, FrameSocket}
use trap.Websocket.Event.{Event}
use trap.Websocket.Machine.{
  State, starting, running, closed, Context, Choice, close, next_event, round, run_loop,
}
use trap.Websocket.Codes.{closing, on_event_closes}

module _ {S R W : Type 0} ⦃sender : SendToAsgiApp S⦄ ⦃receiver : ReceiveFromAsgiApp R⦄
    ⦃socket : FrameSocket W⦄ ⦃ws : WebsocketCrate⦄ ⦃debug : Debug AsgiSendEvent⦄
    ⦃opcodes : Debug OpCode⦄ where
  run_loop_closed :
      (cs : List Choice) (ctx : Context S R W) → run_loop cs closed ctx ≡ some (closed, ctx)
  unfolding run_loop
  run_loop_closed [] ctx = refl
  run_loop_closed (c ∷ cs) ctx = refl

  -- What the loop has come to, and its next rounds from there.
  from_there :
      (ds : List Choice) (p q : State × Context S R W)
      → ◌≡◌ {A = Option (State × Context S R W)} (some p) (some q)
      → run_loop ds p.0 p.1 ≡ run_loop ds q.0 q.1
  from_there ds p q e = ap (λ r. run_loop ds r.0 r.1) (Option.some-injective _ _ e)

  continue :
      (o : Option (State × Context S R W)) (cs ds : List Choice) (p : State × Context S R W)
      → elim o [ none ↦ none | some (st, ctx) ↦ run_loop cs st ctx ] ≡ some p
      → ((st : State) (ctx : Context S R W)
          → run_loop cs st ctx ≡ some p
          → run_loop (cs ++ ds) st ctx ≡ run_loop ds p.0 p.1)
      → elim o [ none ↦ none | some (st, ctx) ↦ run_loop (cs ++ ds) st ctx ] ≡ run_loop ds p.0 p.1
  continue none cs ds p e h = absurd (cc e)
  continue (some (st, ctx)) cs ds p e h = h st ctx e

  run_loop-append :
      (cs ds : List Choice) (st : State) (ctx : Context S R W) (p : State × Context S R W)
      → run_loop cs st ctx ≡ some p
      → run_loop (cs ++ ds) st ctx ≡ run_loop ds p.0 p.1
  unfolding run_loop
  run_loop-append [] ds st ctx p e = from_there ds (st, ctx) p e
  run_loop-append (c ∷ cs) ds closed ctx p e =
      sym (run_loop_closed ds ctx) ∙ from_there ds (closed, ctx) p e
  run_loop-append (c ∷ cs) ds starting ctx p e =
      continue (round c starting ctx) cs ds p e (λ st ctx'. run_loop-append cs ds st ctx' p)
  run_loop-append (c ∷ cs) ds running ctx p e =
      continue (round c running ctx) cs ds p e (λ st ctx'. run_loop-append cs ds st ctx' p)

  -- One round that meets an event which closes the connection.
  round-closing :
      (c : Choice) (rest : List Choice) (st : State) (ctx ctx' : Context S R W) (event : Event)
      (code : ℕ) (reason : Str)
      → st ≢ closed
      → next_event c ctx ≡ some (event, ctx')
      → closing event ≡ some (code, reason)
      → run_loop (c ∷ rest) st ctx ≡ some (close code reason ctx')
  unfolding run_loop round close
  round-closing c rest closed ctx ctx' event code reason n e d = absurd (n refl)
  round-closing c rest starting ctx ctx' event code reason n e d =
      rw (e, (on_event_closes starting event ctx' code reason n d), round, run_loop)
        (run_loop_closed rest _)
  round-closing c rest running ctx ctx' event code reason n e d =
      rw (e, (on_event_closes running event ctx' code reason n d), round, run_loop)
        (run_loop_closed rest _)

  -- The loop of a connection ends in the round in which it meets an event that closes the connection,
  -- with the code and the reason that the event calls for, and whatever branches would resolve after
  -- that: nothing more is read, received, written or sent.
  pub run_loop-closing :
      (before after : List Choice) (c : Choice) (ctx0 ctx ctx' : Context S R W) (st : State)
      (event : Event) (code : ℕ) (reason : Str)
      → run_loop before starting ctx0 ≡ some (st, ctx)
      → st ≢ closed
      → next_event c ctx ≡ some (event, ctx')
      → closing event ≡ some (code, reason)
      → run_loop (before ++ c ∷ after) starting ctx0 ≡ some (close code reason ctx')
  run_loop-closing before after c ctx0 ctx ctx' st event code reason e n x d =
      run_loop-append before (c ∷ after) starting ctx0 (st, ctx) e
      ∙ round-closing c after st ctx ctx' event code reason n x d
