-- ===== src/Server/Service.antt =====
-- `ArasASGIService` of aras/src/service.rs.
use trap.Shared.{ℕ, Bool, ◌∷◌, ◌++◌, if◌then◌else◌}
use trap.Text.Utf8.{Str}
use trap.Asgi.Scope.{Scope}
use trap.Communication.Factory.{CommunicationFactory}
use trap.Layers.ErrorHandler.{decimal}
use trap.Server.Scopes.{ConnectionInfo, Request, ScopeFactory, build_http, build_websocket}

pub record ArasAsgiService (A S : Type 0) : Type 0 where
  pub scope_factory : ScopeFactory S
  pub communication_factory : CommunicationFactory A
  pub connection : ConnectionInfo
  pub asgi_timeout : ℕ
  pub max_ws_frame_size : ℕ

module _ {A S : Type 0} where
  -- `ArasASGIService::new`
  unfoldable new : A → S → ConnectionInfo → ℕ → ℕ → ℕ → ArasAsgiService A S
  new application state connection asgi_timeout communication_queue_size max_ws_frame_size =
      record {
        scope_factory = record { state = state };
        communication_factory = record {
          application = application;
          backpressure_size = communication_queue_size;
        };
        connection = connection;
        asgi_timeout = asgi_timeout;
        max_ws_frame_size = max_ws_frame_size;
      }

  -- `ArasASGIService::new_from_factories`
  unfoldable pub new_from_factories :
      ScopeFactory S → CommunicationFactory A → ConnectionInfo → ℕ → ℕ → ArasAsgiService A S
  new_from_factories scope_factory communication_factory connection asgi_timeout max_ws_frame_size =
      record {
        scope_factory = scope_factory;
        communication_factory = communication_factory;
        connection = connection;
        asgi_timeout = asgi_timeout;
        max_ws_frame_size = max_ws_frame_size;
      }

-- What `CommunicationFactory::build` starts: a task of the application under a scope, over two channels
-- of a size.
pub record Task (A S : Type 0) : Type 0 where
  pub application : A
  pub scope : Scope S
  pub channel_size : ℕ

abbrev build_task : {A S : Type 0} → CommunicationFactory A → Scope S → Task A S
build_task f scope = record {
  application = f.application;
  scope = scope;
  channel_size = f.backpressure_size;
}

-- Which handler serves a request, over the handles of which task, with its parameters.
pub data Served (A S : Type 0) : Type 0 where
  by_websocket : Task A S → ℕ → ℕ → Str → Served A S  -- timeout, largest frame, client
  by_http : Task A S → ℕ → Served A S  -- timeout

-- The crate `fastwebsockets`: whether a request asks for an upgrade.
pub record UpgradeCrate : Type 0 where
  pub is_upgrade_request : Request → Bool

-- `format!("{}:{}", client_ip, client_port)`
unfoldable pub client_text : ConnectionInfo → Str
unfolding decimal
client_text c = c.client_ip ++ 58 ∷ decimal c.client_port

-- `Service::call`
unfoldable pub call :
    {A S : Type 0} ⦃crate : UpgradeCrate⦄ → ArasAsgiService A S → Request → Served A S
unfolding build_http build_websocket client_text
call ⦃crate⦄ s request =
    if crate.is_upgrade_request request
    then by_websocket
        (build_task s.communication_factory (build_websocket s.scope_factory s.connection request))
        s.asgi_timeout s.max_ws_frame_size (client_text s.connection)
    else by_http
        (build_task s.communication_factory (build_http s.scope_factory s.connection request))
        s.asgi_timeout
