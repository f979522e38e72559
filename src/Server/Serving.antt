-- ===== src/Server/Serving.antt =====
-- service.rs: what serves a request.
use trap.Shared.{◌≡◌, refl, Bool, true, false, Bool-cases, inl, inr}
use trap.Asgi.Scope.{is_http, is_websocket}
use trap.Server.Scopes.{Request, build_http, build_websocket}
use trap.Server.Service.{Served, by_websocket, by_http, ArasAsgiService, UpgradeCrate, call}

-- The scope is of the handler's protocol.
abbrev pub IsServedAs : {A S : Type 0} → Bool → Served A S → Type 0
IsServedAs upgrade (by_websocket task limit size client) =
    (upgrade ≡ true) × (is_websocket task.scope ≡ true)
IsServedAs upgrade (by_http task limit) = (upgrade ≡ false) × (is_http task.scope ≡ true)

-- A request goes to the WebSocket handler if it asks for an upgrade and to the HTTP handler if not,
-- and its application gets a scope of the same protocol.
pub call-IsServedAs :
    {A S : Type 0} ⦃crate : UpgradeCrate⦄ (s : ArasAsgiService A S) (request : Request)
    → IsServedAs (crate.is_upgrade_request request) (call s request)
unfolding call build_http build_websocket is_http is_websocket
call-IsServedAs ⦃crate⦄ s request = elim (Bool-cases (crate.is_upgrade_request request)) [
  | inl e ↦ rw (e, call) (refl, refl)
  | inr e ↦ rw (e, call) (refl, refl)
]
