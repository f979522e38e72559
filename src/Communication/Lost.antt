-- ===== src/Communication/Lost.antt =====
-- What a dropped caller of `wait_for_completion` in communication.rs leaves behind.
use trap.Shared.{◌≡◌, refl, Bool, true, false, Option, none, some, List, if◌then◌else◌, All}
use trap.Communication.Interface.{ApplicationResult, unexpected}
use trap.Communication.Handle.{
  Outcome, ApplicationHandle, Caller, missed, too_late, awaiting, storing, returned, first_read,
  take_receiver, second_read,
}
use trap.Communication.Callers.{
  Moves, reads, takes, reads_again, resolves, stores, drops, Steps, enters, moves, Reaches, here,
  then_step, All-replace, All-at,
}

-- The receiver is gone, nothing is cached, and no caller is on the way to fill the cache.
abbrev pub IsLost : ApplicationHandle → Type 0
IsLost h = (h.cached_result ≡ none) × (h.receiver ≡ false)

abbrev pub IsWaitingInVain : Caller → Type 0
IsWaitingInVain awaiting = ⊥
IsWaitingInVain (storing r) = ⊥
IsWaitingInVain (returned r) = r ≡ unexpected
IsWaitingInVain _ = Unit

read-IsWaitingInVain :
    (r : Option ApplicationResult) (miss : Caller)
    → IsWaitingInVain miss
    → r ≡ none
    → IsWaitingInVain (elim r [ some r ↦ returned r | none ↦ miss ])
read-IsWaitingInVain none miss i e = i
read-IsWaitingInVain (some r) miss i e = absurd (cc e)

take-IsWaitingInVain :
    (h : ApplicationHandle)
    → IsLost h
    → (b : Bool) → b ≡ false
    → let taken =
        if◌then◌else◌ {A = ApplicationHandle × Caller} b
          (record h { receiver = false }, awaiting)
          (h, too_late) in
      IsLost taken.0 × IsWaitingInVain taken.1
take-IsWaitingInVain h l true e = absurd (cc e)
take-IsWaitingInVain h l false e = (l, tt)

Moves-IsLost :
    {o : Outcome} {h : ApplicationHandle} {c : Caller} {h' : ApplicationHandle} {c' : Caller}
    → Moves o h c h' c'
    → IsLost h
    → IsWaitingInVain c
    → IsLost h' × IsWaitingInVain c'
unfolding first_read take_receiver second_read
Moves-IsLost (reads h) l i = (l, read-IsWaitingInVain h.cached_result missed tt (l.0))
Moves-IsLost (takes h) l i = take-IsWaitingInVain h l h.receiver (l.1)
Moves-IsLost (reads_again h) l i =
    (l, read-IsWaitingInVain h.cached_result (returned unexpected) refl (l.0))
Moves-IsLost (resolves h) l i = absurd i
Moves-IsLost (stores r h) l i = absurd i
Moves-IsLost (drops c h) l i = (l, tt)

Steps-IsLost :
    {o : Outcome} {h : ApplicationHandle} {cs : List Caller} {h' : ApplicationHandle}
    {cs' : List Caller}
    → Steps o h cs h' cs'
    → IsLost h
    → All IsWaitingInVain cs
    → IsLost h' × All IsWaitingInVain cs'
Steps-IsLost (enters h cs) f i = (f, (tt, i))
Steps-IsLost (moves before after h c h' c' m) f i = (
  (Moves-IsLost m f (All-at IsWaitingInVain before after c i)).0,
  All-replace IsWaitingInVain before after c c' i (λ p. (Moves-IsLost m f p).1),
)

-- Where the receiver is gone with nothing cached and no caller on the way to fill the cache, as after
-- the caller that awaited it was dropped, it stays so for ever: every caller that returns from
-- there on has `unexpected`, whatever the application's outcome is.
pub Reaches-IsLost :
    (o : Outcome) {h : ApplicationHandle} {cs : List Caller} {h' : ApplicationHandle}
    {cs' : List Caller}
    → IsLost h
    → All IsWaitingInVain cs
    → Reaches o h cs h' cs'
    → IsLost h' × All IsWaitingInVain cs'
Reaches-IsLost o l i (here h cs) = (l, i)
Reaches-IsLost o l i (then_step h cs h1 cs1 h2 cs2 r s) =
    let (l', i') = Reaches-IsLost o l i r in Steps-IsLost s l' i'
