-- ===== src/Server/Layers.antt =====
-- server.rs: the order of the layers around a service.
use trap.Shared.{
  ℕ, suc, ◌==◌, ◌||◌, ◌≡◌, inl, inr, Bool, true, false, List, [], ◌∷◌, length, ltb, Bool-cases,
  ◌&&◌, not,
}
use trap.Server.Config.{ArasServer}
use trap.Server.Run.{
  Layer, catch_panic, set_request_id, trace, propagate_request_id, set_sensitive_request_headers,
  error_handler, compression, request_body_limit, request_decompression, load_shed, buffer,
  rate_limit, concurrency_limit, timeout, stack,
}

-- The place of a layer in the order in which a request meets the layers.
abbrev pub rank : Layer → ℕ
rank catch_panic = 0
rank set_request_id = 1
rank trace = 2
rank propagate_request_id = 3
rank (set_sensitive_request_headers _) = 4
rank error_handler = 5
rank compression = 6
rank (request_body_limit _) = 7
rank request_decompression = 8
rank load_shed = 9
rank (buffer _) = 10
rank (rate_limit _) = 11
rank (concurrency_limit _) = 12
rank (timeout _) = 13

abbrev pub from : ℕ → List Layer → Bool
from n [] = true
from n (l ∷ ls) = not (ltb (rank l) n) && from (suc (rank l)) ls

abbrev pub has : ℕ → List Layer → Bool
has n [] = false
has n (l ∷ ls) = (rank l == n) || has n ls

-- Under every configuration the layers stand in one fixed order, each at most once, and the error
-- handler is there, outside the limits, the buffer and the timeout. The two layers of the request ids
-- are both there or both absent, as the setting says, and headers are marked sensitive when there are
-- any to mark.
pub stack_lem :
    (s : ArasServer)
    → (from 0 (stack s) ≡ true)
      × (has 5 (stack s) ≡ true)
      × (has 1 (stack s) ≡ s.request_ids)
      × (has 3 (stack s) ≡ s.request_ids)
      × (has 4 (stack s) ≡ ltb 0 (length s.sensitive_headers))
unfolding stack
stack_lem s = elim (Bool-cases s.request_ids) [
  | inl e ↦ elim (Bool-cases (ltb 0 (length s.sensitive_headers))) [
    | inl d ↦ (rw (e, d), rw (e, d), rw e, rw e, rw (e, d))
    | inr d ↦ (rw (e, d), rw (e, d), rw e, rw e, rw (e, d))
  ]
  | inr e ↦ elim (Bool-cases (ltb 0 (length s.sensitive_headers))) [
    | inl d ↦ (rw (e, d), rw (e, d), rw (e, d), rw (e, d), rw (e, d))
    | inr d ↦ (rw (e, d), rw (e, d), rw (e, d), rw (e, d), rw (e, d))
  ]
]
