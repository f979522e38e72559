-- ===== src/Server/Run.antt =====
-- The stack of layers of aras/src/server.rs.
use trap.Shared.{ℕ, ltb, Bool, true, false, List, [], ◌∷◌, ◌++◌, length}
use trap.Text.Utf8.{Str}
use trap.Server.Config.{ArasServer}

-- The layers, outermost first, with what the configuration hands them.
pub data Layer : Type 0 where
  catch_panic : Layer
  set_request_id : Layer
  trace : Layer
  propagate_request_id : Layer
  set_sensitive_request_headers : List Str → Layer
  error_handler : Layer
  compression : Layer
  request_body_limit : ℕ → Layer
  request_decompression : Layer
  load_shed : Layer
  buffer : ℕ → Layer
  rate_limit : ℕ × ℕ → Layer
  concurrency_limit : ℕ → Layer
  timeout : ℕ → Layer

-- `option_layer(flag.then(|| l))`
abbrev option_layer : Bool → Layer → List Layer
option_layer true l = l ∷ []
option_layer false l = []

-- The `stack` of `run_server`.
unfoldable pub stack : ArasServer → List Layer
stack s =
    catch_panic ∷ option_layer s.request_ids set_request_id
    ++ trace ∷ option_layer s.request_ids propagate_request_id
    ++ option_layer (ltb 0 (length s.sensitive_headers))
        (set_sensitive_request_headers s.sensitive_headers)
    ++ error_handler
      ∷ compression
      ∷ request_body_limit s.body_limit
      ∷ request_decompression
      ∷ load_shed
      ∷ buffer s.buffer_size
      ∷ rate_limit s.rate_limit
      ∷ concurrency_limit s.concurrency_limit
      ∷ timeout s.request_timeout
      ∷ []
