-- ===== src/Communication/Channel.antt =====
-- What the program uses of the crate `async_channel`: a bounded channel of messages in order.
use trap.Shared.{
  ℕ, ◌<◌, ◌≡◌, Bool, true, Option, some, List, [], ◌∷◌, ◌++◌, length, Result, ok, err,
}

-- `none` is an operation that waits. A send succeeds on an open channel with room, and fails on a closed
-- one. A receive takes the oldest message, also from a closed channel, and fails on an empty channel
-- that is closed. Dropping the last sender or the last receiver closes the channel and leaves its
-- messages there.
pub record Channel (M Q : Type 0) : Type 0 where
  pub bounded : ℕ → Q
  pub send : M → Q → Option (Q × Result (Unit {0}) (Unit {0}))
  pub recv : Q → Option (Q × Result M (Unit {0}))
  pub close : Q → Q
  pub queue : Q → List M
  pub capacity : Q → ℕ
  pub closed : Q → Bool
  pub queue-bounded : (n : ℕ) → queue (bounded n) ≡ []
  pub capacity-bounded : (n : ℕ) → capacity (bounded n) ≡ n
  pub sent :
      (m : M) (q q' : Q)
      → send m q ≡ some (q', ok tt)
      → (queue q' ≡ queue q ++ m ∷ [])
        × (length (queue q) < capacity q)
        × (capacity q' ≡ capacity q)
  pub refused : (m : M) (q q' : Q) → send m q ≡ some (q', err tt) → (closed q ≡ true) × (q' ≡ q)
  pub received :
      (m : M) (q q' : Q)
      → recv q ≡ some (q', ok m)
      → (queue q ≡ m ∷ queue q') × (capacity q' ≡ capacity q)
  pub ended :
      (q q' : Q) → recv q ≡ some (q', err tt) → (queue q ≡ []) × (closed q ≡ true) × (q' ≡ q)
  pub recv_next :
      (m : M) (ms : List M) (q : Q) → queue q ≡ m ∷ ms → (q' : Q) × (recv q ≡ some (q', ok m))
  pub send_closed : (m : M) (q : Q) → closed q ≡ true → send m q ≡ some (q, err tt)
  pub recv_closed : (q : Q) → queue q ≡ [] → closed q ≡ true → recv q ≡ some (q, err tt)
  pub closed-recv : (m : M) (q q' : Q) → recv q ≡ some (q', ok m) → closed q' ≡ closed q
  pub queue-close : (q : Q) → queue (close q) ≡ queue q
  pub capacity-close : (q : Q) → capacity (close q) ≡ capacity q
  pub closed-close : (q : Q) → closed (close q) ≡ true
