-- ===== src/Examples/Servers.antt =====
-- Configurations, scopes and the callers of an application handle.
use trap.Shared.{ℕ, ◌≡◌, refl, true, false, none, some, List, [], ◌∷◌, ok, All, err, map, Result}
use trap.Text.Utf8.{Str, Bytes, str}
use trap.Communication.Handle.{ApplicationHandle, entered, dropped}
use trap.Communication.Callers.{here, then_step, enters}
use trap.Communication.Lost.{IsLost, IsWaitingInVain, Reaches-IsLost}
use trap.Server.Scopes.{Request, ScopeFactory, subprotocols_of}
use trap.Server.Subprotocols.{Offers, subprotocols_of_lem}
use trap.Server.Config.{IpAddr, v4, ArasServer}
use trap.Server.Python.{Parameters, HeaderNames, serve_python}
use trap.Server.Service.{UpgradeCrate, call}
use trap.Server.Accept.{
  accept_loop, communication_factory_of, client_of, scope_of, Serves, accept_loop-Serves,
}
use trap.Server.Settings.{serve_python_lem}

-- The caller that took the receiver has been dropped, and another enters.
abbrev lost : ApplicationHandle
lost = record { cached_result = none; receiver = false }

Reaches-IsLost_example : IsLost lost × All IsWaitingInVain (entered ∷ dropped ∷ [])
Reaches-IsLost_example =
    Reaches-IsLost (some (ok tt)) (refl, refl) (tt, tt)
      (then_step _ _ _ _ _ _ (here lost (dropped ∷ [])) (enters lost (dropped ∷ [])))

abbrev offers : List (Str × Bytes)
offers = (str "Sec-WebSocket-Protocol", str "chat, json") ∷ (str "host", str "x") ∷ []

subprotocols_of_lem_example : Offers offers (subprotocols_of offers)
subprotocols_of_lem_example = subprotocols_of_lem offers

instance abbrev header_names : HeaderNames
header_names = record { try_into = λ s. ok s }

abbrev parameters : Parameters
parameters = record {
  addr = record { a = 127; b = 0; c = 0; d = 1 };
  port = 80;
  keep_alive = false;
  max_concurrency = none;
  max_size_kb = 5;
  request_timeout = 30;
  rate_limit = (10, 1);
  buffer_size = 8;
  backpressure_timeout = 60;
  backpressure_size = 16;
  max_ws_frame_size = 1024;
  request_ids = true;
  auto_date_header = false;
  sensitive_headers = some (str "cookie" ∷ []);
}

abbrev served : ArasServer
served = record {
  addr = v4 (record { a = 127; b = 0; c = 0; d = 1 });
  port = 80;
  keep_alive = false;
  request_timeout = 30;
  body_limit = 5000;
  concurrency_limit = 100;
  rate_limit = (10, 1);
  buffer_size = 8;
  backpressure_timeout = 60;
  backpressure_size = 16;
  max_ws_frame_size = 1024;
  request_ids = true;
  auto_date_header = false;
  sensitive_headers = str "cookie" ∷ [];
}

serve_python_lem_example : serve_python 100 parameters ≡ ok served
serve_python_lem_example = serve_python_lem 100 parameters (str "cookie" ∷ []) (refl, refl)

instance abbrev upgrade_crate : UpgradeCrate
upgrade_crate = record { is_upgrade_request = λ request. false }

abbrev request : Request
request = record {
  version = str "HTTP/1.1";
  method = str "GET";
  path = str "/";
  query = none;
  headers = offers;
}

-- Two clients connect, and a failure comes in between.
abbrev accepts : List (Result (Str × ℕ) Str)
accepts = ok (str "::2", 1234) ∷ err (str "too many files") ∷ ok (str "::3", 4321) ∷ []

abbrev factory : ScopeFactory ℕ
factory = record { state = 0 }

abbrev any_address : IpAddr → Str
any_address a = str "127.0.0.1"

accept_loop-Serves_example :
    let connections =
      accept_loop any_address served factory
        (communication_factory_of served (str "app"))
        accepts in
    (map (λ c. client_of (scope_of (call c.service request))) connections
      ≡ some (str "::2", 1234) ∷ some (str "::3", 4321) ∷ [])
    × All (Serves any_address served factory (str "app") request) connections
accept_loop-Serves_example =
    accept_loop-Serves any_address served factory (str "app") request accepts
