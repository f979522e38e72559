-- ===== src/Communication/Callers.antt =====
-- The callers of `wait_for_completion` in communication.rs, interleaved in any order: what they
-- return.
use trap.Shared.{◌≡◌, refl, List, [], ◌∷◌, ◌++◌, All}
use trap.Communication.Interface.{ApplicationResult}
use trap.Communication.Handle.{
  Outcome, result_of, ApplicationHandle, new_handle, Caller, entered, missed, too_late, awaiting,
  storing, dropped, first_read, take_receiver, second_read, store, wait_for_completion,
}

-- One caller moves on, or is dropped where it stands.
pub data Moves (o : Outcome)
    : ApplicationHandle → Caller → ApplicationHandle → Caller → Type 0 where
  reads : (h : ApplicationHandle) → Moves o h entered h (first_read h)
  takes : (h : ApplicationHandle) → Moves o h missed (take_receiver h).0 (take_receiver h).1
  reads_again : (h : ApplicationHandle) → Moves o h too_late h (second_read h)
  resolves : (h : ApplicationHandle) → Moves o h awaiting h (storing (result_of o))
  stores :
      (r : ApplicationResult) (h : ApplicationHandle)
      → Moves o h (storing r) (store r h).0 (store r h).1
  drops : (c : Caller) (h : ApplicationHandle) → Moves o h c h dropped

-- A new caller enters, or one of the callers moves.
pub data Steps (o : Outcome)
    : ApplicationHandle → List Caller → ApplicationHandle → List Caller → Type 0 where
  enters : (h : ApplicationHandle) (cs : List Caller) → Steps o h cs h (entered ∷ cs)
  moves :
      (before after : List Caller) (h : ApplicationHandle) (c : Caller) (h' : ApplicationHandle)
      (c' : Caller)
      → Moves o h c h' c'
      → Steps o h (before ++ c ∷ after) h' (before ++ c' ∷ after)

pub data Reaches (o : Outcome)
    : ApplicationHandle → List Caller → ApplicationHandle → List Caller → Type 0 where
  here : (h : ApplicationHandle) (cs : List Caller) → Reaches o h cs h cs
  then_step :
      (h : ApplicationHandle) (cs : List Caller) (h1 : ApplicationHandle) (cs1 : List Caller)
      (h2 : ApplicationHandle) (cs2 : List Caller)
      → Reaches o h cs h1 cs1
      → Steps o h1 cs1 h2 cs2
      → Reaches o h cs h2 cs2

pub All-replace :
    (P : Caller → Type 0) (before after : List Caller) (c c' : Caller)
    → All P (before ++ c ∷ after)
    → (P c → P c')
    → All P (before ++ c' ∷ after)
All-replace P [] after c c' (p, ps) f = (f p, ps)
All-replace P (b ∷ before) after c c' (p, ps) f = (p, All-replace P before after c c' ps f)

pub All-at :
    (P : Caller → Type 0) (before after : List Caller) (c : Caller)
    → All P (before ++ c ∷ after)
    → P c
All-at P [] after c (p, ps) = p
All-at P (b ∷ before) after c (p, ps) = All-at P before after c ps

-- With no other caller in between, a call on a fresh handle returns the result of the application's
-- outcome, and so does each call after it, which finds it in the cache and changes nothing.
wait_for_completion_idempotent :
    (o o' : Outcome)
    → let (h, r) = wait_for_completion o new_handle in
      (r ≡ result_of o) × (wait_for_completion o' h ≡ (h, result_of o))
unfolding wait_for_completion
wait_for_completion_idempotent o o' = (refl, refl)
