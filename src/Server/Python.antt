-- ===== src/Server/Python.antt =====
-- `serve_python` of aras_py/src/lib.rs: from the parameters to the server that it runs.
use trap.Shared.{
  ℕ, ◌*◌, ◌%◌, ◌^◌, Bool, Option, none, some, List, [], ◌∷◌, Result, ok, err, if◌then◌else◌,
}
use trap.Text.Utf8.{Str}
use trap.Server.Config.{
  Ipv4Addr, v4, ArasServer, ArasServerBuilder, new_builder, set_addr, set_port, no_keep_alive,
  set_request_timeout, set_body_limit, set_concurrency_limit, set_rate_limit, set_buffer_size,
  set_backpressure_timeout, set_backpressure_size, set_max_ws_frame_size, set_request_ids,
  disable_auto_date_header, sensitive_header, build,
}

-- The parameter `addr` is the four bytes of an IPv4 address.
pub record Parameters : Type 0 where
  pub addr : Ipv4Addr
  pub port : ℕ
  pub keep_alive : Bool
  pub max_concurrency : Option ℕ
  pub max_size_kb : ℕ
  pub request_timeout : ℕ
  pub rate_limit : ℕ × ℕ
  pub buffer_size : ℕ
  pub backpressure_timeout : ℕ
  pub backpressure_size : ℕ
  pub max_ws_frame_size : ℕ
  pub request_ids : Bool
  pub auto_date_header : Bool
  pub sensitive_headers : Option (List Str)

-- The crate `http`: the header name that a text stands for, or why it stands for none.
pub record HeaderNames : Type 0 where
  pub try_into : Str → Result Str Str

module _ ⦃names : HeaderNames⦄ where
  -- The loop over the sensitive headers, which ends at the first that is no header name.
  unfoldable pub redact : List Str → ArasServerBuilder → Result ArasServerBuilder Str
  unfolding sensitive_header
  redact [] s = ok s
  redact (header ∷ rest) s = elim (names.try_into header) [
    | ok name ↦ redact rest (sensitive_header name s)
    | err e ↦ err e
  ]

  unfoldable pub redact_all : Option (List Str) → ArasServerBuilder → Result ArasServerBuilder Str
  redact_all none s = ok s
  redact_all (some headers) s = redact headers s

  -- `max_size_kb * 1000` wraps at the width of `usize` in a release build.
  unfoldable pub base : ℕ → Parameters → ArasServerBuilder
  unfolding new_builder set_addr set_port set_request_timeout set_body_limit set_rate_limit
      set_buffer_size set_backpressure_timeout set_backpressure_size set_max_ws_frame_size
  base max_permits p = set_max_ws_frame_size p.max_ws_frame_size (
      set_backpressure_size p.backpressure_size (
        set_backpressure_timeout p.backpressure_timeout (
          set_buffer_size p.buffer_size (
            set_rate_limit p.rate_limit.0 p.rate_limit.1 (
              set_body_limit (p.max_size_kb * 1000 % 2 ^ 64) (
                set_request_timeout p.request_timeout
                  (set_port p.port (set_addr (v4 p.addr) (new_builder max_permits)))))))))

  unfoldable pub flags : Parameters → ArasServerBuilder → ArasServerBuilder
  unfolding set_request_ids no_keep_alive disable_auto_date_header
  flags p s =
      let s1 = if p.request_ids then set_request_ids s else s in
      let s2 = if p.keep_alive then s1 else no_keep_alive s1 in
      if p.auto_date_header then s2 else disable_auto_date_header s2

  unfoldable pub limit_concurrency : Option ℕ → ArasServerBuilder → ArasServerBuilder
  unfolding set_concurrency_limit
  limit_concurrency none s = s
  limit_concurrency (some limit) s = set_concurrency_limit limit s

  unfoldable pub serve_python : ℕ → Parameters → Result ArasServer Str
  unfolding base flags redact_all limit_concurrency build
  serve_python max_permits p =
      elim (redact_all p.sensitive_headers (flags p (base max_permits p))) [
        | ok s ↦ ok (build (limit_concurrency p.max_concurrency s))
        | err e ↦ err e
      ]
