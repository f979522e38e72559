-- ===== src/Examples/Channels.antt =====
-- A bounded channel for the examples, and its runs.
use trap.Shared.{
  ℕ, ◌<◌, ◌≡◌, refl, Bool, true, false, Option, none, some, List, [], ◌∷◌, ◌++◌, length, ltb,
  Result, ok, err, arith, if◌then◌else◌,
}
use trap.Communication.Channel.{Channel}

pub record Pipe (M : Type 0) : Type 0 where
  pub queue : List M
  pub capacity : ℕ
  pub closed : Bool

module _ {M : Type 0} where
  abbrev put : M → Pipe M → Option (Pipe M × Result (Unit {0}) (Unit {0}))
  put m p =
      if p.closed
      then some (p, err tt)
      else if ltb (length p.queue) p.capacity
      then some (record p { queue = p.queue ++ m ∷ [] }, ok tt)
      else none

  abbrev take_first : Pipe M → List M → Option (Pipe M × Result M (Unit {0}))
  take_first p [] = if p.closed then some (p, err tt) else none
  take_first p (m ∷ ms) = some (record p { queue = ms }, ok m)

  abbrev take_message : Pipe M → Option (Pipe M × Result M (Unit {0}))
  take_message p = take_first p p.queue

  pub put_sent :
      (m : M) (q q' : Pipe M)
      → put m q ≡ some (q', ok tt)
      → (q'.queue ≡ q.queue ++ m ∷ []) × (length q.queue < q.capacity) × (q'.capacity ≡ q.capacity)
  put_sent m q q' h = ground arith

  pub put_refused :
      (m : M) (q q' : Pipe M) → put m q ≡ some (q', err tt) → (q.closed ≡ true) × (q' ≡ q)
  put_refused m q q' h = ground arith

  pub take_first_got :
      (m : M) (q q' : Pipe M) (ms : List M)
      → take_first q ms ≡ some (q', ok m)
      → (ms ≡ m ∷ q'.queue) × (q'.capacity ≡ q.capacity)
  take_first_got m q q' [] h = ground arith
  take_first_got m q q' (n ∷ ms) h = ground arith

  pub take_first_ended :
      (q q' : Pipe M) (ms : List M)
      → take_first q ms ≡ some (q', err tt)
      → (ms ≡ []) × (q.closed ≡ true) × (q' ≡ q)
  take_first_ended q q' [] h = ground arith
  take_first_ended q q' (n ∷ ms) h = ground arith

  pub put_closed : (m : M) (q : Pipe M) → q.closed ≡ true → put m q ≡ some (q, err tt)
  put_closed m q h = ground arith

  pub take_closed :
      (q : Pipe M) → q.queue ≡ [] → q.closed ≡ true → take_message q ≡ some (q, err tt)
  take_closed q e h = ground arith

  pub take_first-closed :
      (m : M) (q q' : Pipe M) (ms : List M)
      → take_first q ms ≡ some (q', ok m)
      → q'.closed ≡ q.closed
  take_first-closed m q q' [] h = ground arith
  take_first-closed m q q' (n ∷ ms) h = ground arith

  pub take_next :
      (m : M) (ms : List M) (q : Pipe M)
      → q.queue ≡ m ∷ ms
      → (q' : Pipe M) × (take_message q ≡ some (q', ok m))
  take_next m ms q e = (record q { queue = ms }, rw e refl)

instance abbrev pub pipe : {M : Type 0} → Channel M (Pipe M)
pipe = record {
  bounded = λ n. record { queue = []; capacity = n; closed = false };
  send = put;
  recv = take_message;
  close = λ p. record p { closed = true };
  queue = λ p. p.queue;
  capacity = λ p. p.capacity;
  closed = λ p. p.closed;
  queue-bounded = λ n. refl;
  capacity-bounded = λ n. refl;
  sent = put_sent;
  refused = put_refused;
  received = λ m q q' h. take_first_got m q q' q.queue h;
  ended = λ q q' h. take_first_ended q q' q.queue h;
  recv_next = take_next;
  send_closed = put_closed;
  recv_closed = take_closed;
  closed-recv = λ m q q' h. take_first-closed m q q' q.queue h;
  queue-close = λ q. refl;
  capacity-close = λ q. refl;
  closed-close = λ q. refl;
}
