-- ===== src/Python/Token.antt =====
-- `PyStopServerToken` of wrappers.rs: the handle with which Python stops the server. `W` is the state that
-- tokio's tokens share.
use trap.Shared.{◌≡◌, Bool, true}

-- What the program uses of `CancellationToken`: a clone is the same token, and stays cancelled once it
-- is.
pub record CancelCrate (T W : Type 0) : Type 0 where
  pub cancel : T → W → W
  pub is_cancelled : T → W → Bool
  pub is_cancelled-cancel : (t : T) (w : W) → is_cancelled t (cancel t w) ≡ true

pub record PyStopServerToken (T : Type 0) : Type 0 where
  pub token : T

module _ {T : Type 0} where
  -- `PyStopServerToken::new`
  unfoldable new : T → PyStopServerToken T
  new token = record { token = token }

  unfoldable get_cancel_token : PyStopServerToken T → T
  get_cancel_token self = self.token

module _ {T W : Type 0} ⦃crate : CancelCrate T W⦄ where
  unfoldable stop : PyStopServerToken T → W → W
  stop self w = crate.cancel self.token w

  -- Stopping cancels the token that the server was given.
  is_cancelled-stop :
      (token : T) (w : W)
      → crate.is_cancelled (get_cancel_token (new token)) (stop (new token) w) ≡ true
  unfolding new get_cancel_token stop
  is_cancelled-stop token w = crate.is_cancelled-cancel token w
