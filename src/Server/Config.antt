-- ===== src/Server/Config.antt =====
-- `ArasServer` and `ArasServerBuilder` of aras/src/server.rs. Durations are in seconds. The token of the
-- cancellation has no state here: `ASGIServer::run` only awaits it.
use trap.Shared.{ℕ, ◌*◌, Bool, true, false, List, [], ◌∷◌, ◌++◌}
use trap.Text.Utf8.{Str}

-- The four bytes of an IPv4 address.
pub record Ipv4Addr : Type 0 where
  pub a : ℕ
  pub b : ℕ
  pub c : ℕ
  pub d : ℕ

-- The sixteen bytes of an IPv6 address.
pub record Ipv6Addr : Type 0 where
  pub octets : List ℕ

pub data IpAddr : Type 0 where
  v4 : Ipv4Addr → IpAddr
  v6 : Ipv6Addr → IpAddr

-- `ArasServer` has the fields of its builder.
pub record ArasServer : Type 0 where
  pub addr : IpAddr
  pub port : ℕ
  pub keep_alive : Bool
  pub request_timeout : ℕ
  pub body_limit : ℕ
  pub concurrency_limit : ℕ
  pub rate_limit : ℕ × ℕ
  pub buffer_size : ℕ
  pub backpressure_timeout : ℕ
  pub backpressure_size : ℕ
  pub max_ws_frame_size : ℕ
  pub request_ids : Bool
  pub auto_date_header : Bool
  pub sensitive_headers : List Str

pub record ArasServerBuilder : Type 0 where
  pub addr : IpAddr
  pub port : ℕ
  pub keep_alive : Bool
  pub request_timeout : ℕ
  pub body_limit : ℕ
  pub concurrency_limit : ℕ
  pub rate_limit : ℕ × ℕ
  pub buffer_size : ℕ
  pub backpressure_timeout : ℕ
  pub backpressure_size : ℕ
  pub max_ws_frame_size : ℕ
  pub request_ids : Bool
  pub auto_date_header : Bool
  pub sensitive_headers : List Str

-- `ArasServerBuilder::new`; `max_permits` is tokio's `Semaphore::MAX_PERMITS`.
unfoldable pub new_builder : ℕ → ArasServerBuilder
new_builder max_permits = record {
  addr = v4 (record { a = 127; b = 0; c = 0; d = 1 });
  port = 8080;
  keep_alive = true;
  request_timeout = 180;
  body_limit = 1000000000;
  concurrency_limit = max_permits;
  rate_limit = (1000, 1);
  buffer_size = 1024;
  backpressure_timeout = 60;
  backpressure_size = 16;
  max_ws_frame_size = 64 * 1024;
  request_ids = false;
  auto_date_header = true;
  sensitive_headers = [];
}

-- The methods of the builder, by name.
unfoldable pub set_addr : IpAddr → ArasServerBuilder → ArasServerBuilder
set_addr x s = record s { addr = x }

unfoldable pub set_port : ℕ → ArasServerBuilder → ArasServerBuilder
set_port x s = record s { port = x }

unfoldable pub no_keep_alive : ArasServerBuilder → ArasServerBuilder
no_keep_alive s = record s { keep_alive = false }

unfoldable pub set_request_timeout : ℕ → ArasServerBuilder → ArasServerBuilder
set_request_timeout x s = record s { request_timeout = x }

unfoldable pub set_body_limit : ℕ → ArasServerBuilder → ArasServerBuilder
set_body_limit x s = record s { body_limit = x }

unfoldable pub set_concurrency_limit : ℕ → ArasServerBuilder → ArasServerBuilder
set_concurrency_limit x s = record s { concurrency_limit = x }

unfoldable pub set_rate_limit : ℕ → ℕ → ArasServerBuilder → ArasServerBuilder
set_rate_limit requests per_seconds s = record s { rate_limit = (requests, per_seconds) }

unfoldable pub set_buffer_size : ℕ → ArasServerBuilder → ArasServerBuilder
set_buffer_size x s = record s { buffer_size = x }

unfoldable pub set_backpressure_timeout : ℕ → ArasServerBuilder → ArasServerBuilder
set_backpressure_timeout x s = record s { backpressure_timeout = x }

unfoldable pub set_backpressure_size : ℕ → ArasServerBuilder → ArasServerBuilder
set_backpressure_size x s = record s { backpressure_size = x }

unfoldable pub set_max_ws_frame_size : ℕ → ArasServerBuilder → ArasServerBuilder
set_max_ws_frame_size x s = record s { max_ws_frame_size = x }

unfoldable pub set_request_ids : ArasServerBuilder → ArasServerBuilder
set_request_ids s = record s { request_ids = true }

unfoldable pub disable_auto_date_header : ArasServerBuilder → ArasServerBuilder
disable_auto_date_header s = record s { auto_date_header = false }

unfoldable pub sensitive_header : Str → ArasServerBuilder → ArasServerBuilder
sensitive_header header s = record s { sensitive_headers = s.sensitive_headers ++ header ∷ [] }

unfoldable pub build : ArasServerBuilder → ArasServer
build s = record {
  addr = s.addr;
  port = s.port;
  keep_alive = s.keep_alive;
  request_timeout = s.request_timeout;
  body_limit = s.body_limit;
  concurrency_limit = s.concurrency_limit;
  rate_limit = s.rate_limit;
  buffer_size = s.buffer_size;
  backpressure_timeout = s.backpressure_timeout;
  backpressure_size = s.backpressure_size;
  max_ws_frame_size = s.max_ws_frame_size;
  request_ids = s.request_ids;
  auto_date_header = s.auto_date_header;
  sensitive_headers = s.sensitive_headers;
}
