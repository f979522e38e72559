-- ===== src/Communication/Handle.antt =====
-- `ApplicationHandle::wait_for_completion`, by the points at which its callers can be interleaved or
-- dropped. The two handles of a link share its two cells.
use trap.Shared.{Bool, true, false, Option, none, some, Result, ok, err, if◌then◌else◌}
use trap.Communication.Interface.{
  ApplicationError, ApplicationResult, completed, unexpected, failed,
}

-- What the oneshot channel gives in the end: the application's result, or `none` if its sender is
-- dropped.
abbrev pub Outcome : Type 0
Outcome = Option (Result (Unit {0}) ApplicationError)

unfoldable pub result_of : Outcome → ApplicationResult
result_of (some (ok _)) = completed
result_of (some (err e)) = failed e
result_of none = unexpected

-- `cached_result`, and whether `receiver` still holds the receiver.
pub record ApplicationHandle : Type 0 where
  pub cached_result : Option ApplicationResult
  pub receiver : Bool

abbrev pub new_handle : ApplicationHandle
new_handle = record { cached_result = none; receiver = true }

-- Where a caller of `wait_for_completion` stands.
pub data Caller : Type 0 where
  entered : Caller  -- before the first read of the cache
  missed : Caller  -- the cache was empty
  too_late : Caller  -- the receiver was gone
  awaiting : Caller  -- holds the receiver, and awaits it
  storing : ApplicationResult → Caller  -- about to write the cache
  returned : ApplicationResult → Caller
  dropped : Caller  -- its future was dropped

-- The first read: a hit returns.
unfoldable pub first_read : ApplicationHandle → Caller
first_read h = elim h.cached_result [ some r ↦ returned r | none ↦ missed ]

-- `self.receiver.lock().await.take()`
unfoldable pub take_receiver : ApplicationHandle → ApplicationHandle × Caller
take_receiver h = if h.receiver then (record h { receiver = false }, awaiting) else (h, too_late)

-- The second read, where the receiver was gone.
unfoldable pub second_read : ApplicationHandle → Caller
second_read h = elim h.cached_result [ some r ↦ returned r | none ↦ returned unexpected ]

-- The write of the cache.
unfoldable pub store : ApplicationResult → ApplicationHandle → ApplicationHandle × Caller
store r h = (record h { cached_result = some r }, returned r)

-- A call with no other caller in between, of an application whose outcome is there.
unfoldable pub wait_for_completion :
    Outcome → ApplicationHandle → ApplicationHandle × ApplicationResult
wait_for_completion o h = elim h.cached_result [
  | some r ↦ (h, r)
  | none ↦
      if h.receiver
      then (record { cached_result = some (result_of o); receiver = false }, result_of o)
      else (h, unexpected)
]
